-- ===== src/Directory/Tests/Runs.antt =====
-- Runs of the directory (MemSys/directory.c) with its ports and buffers, and the theorems on them.
use rsim.Prelude.{◌≡◌, refl, true, some, [], ◌∷◌, ◌==◌, if◌then◌else◌, if_elim, arith}
use rsim.Prelude.Result.{Result, ok, fatal, OnOk}
use rsim.Req.{ReqType}
use rsim.PortQueue.{check_q, rm_q}
use rsim.Directory.{Dir}
use rsim.Directory.Table.{hash_lookup_fm, hash_index, unlink, moved_front}
use rsim.Directory.Table.Chains.{Below, LooksUp, hash_lookup_fm-LooksUp}
use rsim.Directory.Sharers.{
  find_fm, find_words, find_bits, find_node, nonzero, add_fm, rm_all_add_fm, cold,
}
use rsim.Directory.Buffer.{
  dir_check_buf, has_room, dir_commit_req, commit_req, commit_is, req_set_handled, handled_by,
  routing_dir,
}
use rsim.Directory.Buffer.Revive.{dir_check_buf_lem}
use rsim.Directory.Cohe.{read_own, by_type, cohe_line, dir_cohe}
use rsim.Directory.Cohe.Invariant.{AllValid}
use rsim.Directory.Serve.{
  Next, start_over, dir_send_req, dir_outbound, dir_req, respond, give_reply, forward,
}
use rsim.Directory.Serve.Overflow.{overflow_fatal}
use rsim.Directory.Serve.Room.{BoundedNext, dir_req-Bounded}
use rsim.Directory.Run.{dir_serv, serve_kind, here, serves, Reach-AllValid}
use rsim.Directory.Tests.{
  params, asking, port, directory, owned_line, owned_line-IsValid, fresh_line, directory-AllValid,
}

abbrev owned : ReqType → Dir
owned t = directory t owned_line

-- requests 4 and 6 wait for the line 7, and 5 for another one
abbrev waiting : Dir
waiting = record (owned ReqType.read_own) {
  buf = 4 ∷ 5 ∷ 6 ∷ [];
  reqs = λ p. record (asking ReqType.read_own) { tag = if p == 5 then 9 else 7 };
}

dir_check_buf_lem_example :
    dir_check_buf 7 waiting
    ≡ record waiting { bufsz_rdy = 2; ready_reqs = 4 ∷ 6 ∷ []; buf = 5 ∷ [] }
dir_check_buf_lem_example = dir_check_buf_lem 7 waiting

hash_lookup_fm-LooksUp_example :
    LooksUp waiting 9 (hash_lookup_fm 9 waiting).0 (hash_lookup_fm 9 waiting).1
hash_lookup_fm-LooksUp_example =
    hash_lookup_fm-LooksUp 9 waiting
      (λ j. if_elim (Below 1) (j == 7) (λ _. (omega arith, tt)) (λ _. tt))

-- the queue of both output ports is full, and their overflow entries are free
abbrev full : Dir
full = record (owned ReqType.read_own) { out_ports = λ _. port [] 4 }

overflow_fatal_example :
    (has_room full 4 ≡ true) × (dir_send_req 4 full ≡ fatal) × (dir_outbound 4 full ≡ fatal)
overflow_fatal_example = overflow_fatal 4 full refl refl

-- the directory that a case leaves, and the one before if it ends the simulation
abbrev left : Dir → Result (Next × Dir) → Dir
left d (ok (n, e)) = e
left d fatal = d

abbrev next : Result (Next × Dir) → Next
next (ok (n, e)) = n
next fatal = start_over

abbrev served : Result (Next × Dir)
served = dir_serv params 4 (owned ReqType.read_own)

served_ok : served ≡ ok (next served, left (owned ReqType.read_own) served)
unfolding dir_serv serve_kind dir_req dir_cohe hash_lookup_fm unlink hash_index moved_front
    cohe_line by_type read_own find_fm find_words find_bits find_node nonzero rm_all_add_fm cold
    respond forward dir_commit_req commit_req commit_is rm_q
served_ok = refl

-- An uncached line, and a full reply port with its overflow entry taken: DIRREQ puts the request off,
-- and when it comes to it again the simulation ends, since Dir_Cohe has made it a REPLY_EXCL.
abbrev stuck : Dir
stuck = record (directory ReqType.read_own (fresh_line 7)) {
  out_ports = λ _. record (port [] 4) { ov_req = some 9 };
}

abbrev first_try : Result (Next × Dir)
first_try = dir_req params 4 stuck

put_off_then_fatal :
    (next first_try ≡ start_over) × (dir_req params 4 (left stuck first_try) ≡ fatal)
unfolding dir_req dir_cohe hash_lookup_fm unlink hash_index moved_front cohe_line by_type read_own
    add_fm cold respond give_reply req_set_handled handled_by has_room check_q routing_dir
put_off_then_fatal = (refl, refl)

Reach-AllValid_example : AllValid (left (owned ReqType.read_own) served)
Reach-AllValid_example =
    Reach-AllValid params (owned ReqType.read_own) (left (owned ReqType.read_own) served)
      (serves (owned ReqType.read_own) _ 4 (next served) here served_ok)
      (directory-AllValid ReqType.read_own owned_line owned_line-IsValid)

dir_req-Bounded_example : OnOk BoundedNext (dir_req params 4 (owned ReqType.read_own))
dir_req-Bounded_example = dir_req-Bounded params 4 (owned ReqType.read_own) refl (omega arith)
