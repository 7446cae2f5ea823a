-- ===== src/Directory/Buffer/Effect.antt =====
-- What the calls on ports and queues change of the directory (MemSys/directory.c).
use rsim.Prelude.{ℕ, ◌≡◌, Bool, true, false, Option, none, some, List, [], ◌∷◌, ◌==◌, if_elim}
use rsim.Prelude.Result.{Result, ok, fatal, ◌>>=◌, OnOk}
use rsim.PortQueue.{Port}
use rsim.Directory.{Dir}
use rsim.Directory.Buffer.{
  check_buf_loop, dir_check_buf, commit_is, commit_req, dir_commit_req, put_port, add_out,
}

-- the directory with other ports or queues
abbrev pub with_in : Dir → (ℕ → Port ℕ) → Dir
with_in d ports = record d { in_ports = ports }

abbrev pub with_out : Dir → (ℕ → Port ℕ) → Dir
with_out d ports = record d { out_ports = ports }

abbrev pub with_ready : Dir → ℕ → List ℕ → Dir
with_ready d n q = record d { bufsz_rdy = n; ready_reqs = q }

abbrev pub with_buf : Dir → ℕ → List ℕ → List ℕ → Dir
with_buf d n q b = record d { bufsz_rdy = n; ready_reqs = q; buf = b }

module _ {κ} (P : Dir → Type κ) where
  commit_is-OnOk : (p : ℕ) (o : Option ℕ) (d : Dir) → P d → OnOk P (commit_is p o d)
  unfolding commit_is
  commit_is-OnOk p none d h = tt
  commit_is-OnOk p (some q) d h = if_elim (OnOk P) (p == q) (λ _. h) (λ _. tt)

  pub commit_req-OnOk :
      (p : ℕ) (d : Dir) → ((ports : ℕ → Port ℕ) → P (with_in d ports)) → OnOk P (commit_req p d)
  unfolding commit_req
  commit_req-OnOk p d h = commit_is-OnOk p _ _ (h _)

  pub dir_commit_req-OnOk :
      (p : ℕ) (d : Dir)
      → ((ports : ℕ → Port ℕ) → P (with_in d ports))
      → (d.was_pending ≡ true → (n : ℕ) (q : List ℕ) → P (with_ready d n q))
      → OnOk P (dir_commit_req p d)
  unfolding dir_commit_req
  dir_commit_req-OnOk p d h k =
      if_elim (OnOk P) d.was_pending (λ e. commit_is-OnOk p _ _ (k e _ _))
        (λ _. commit_req-OnOk p d h)

  put_port-OnOk :
      (d : Dir) (i : ℕ) (o : Result (Bool × Port ℕ))
      → ((ports : ℕ → Port ℕ) → P (with_out d ports))
      → OnOk P (o >>= put_port d i)
  put_port-OnOk d i (ok (true, port)) h = h _
  put_port-OnOk d i (ok (false, port)) h = tt
  put_port-OnOk d i fatal h = tt

  pub add_out-OnOk :
      (p : ℕ) (d : Dir) → ((ports : ℕ → Port ℕ) → P (with_out d ports)) → OnOk P (add_out p d)
  unfolding add_out
  add_out-OnOk p d h = put_port-OnOk d _ _ h

  check_buf_loop-elim :
      (tag : ℕ) (ps : List ℕ) (d : Dir)
      → ((n : ℕ) (q b : List ℕ) → P (with_buf d n q b))
      → P (check_buf_loop tag ps d)
  unfolding check_buf_loop
  check_buf_loop-elim tag [] d h = h d.bufsz_rdy d.ready_reqs d.buf
  check_buf_loop-elim tag (p ∷ ps) d h =
      if_elim (λ e. P (check_buf_loop tag ps e)) ((d.reqs p).tag == tag)
        (λ _. check_buf_loop-elim tag ps _ h) (λ _. check_buf_loop-elim tag ps _ h)

  pub dir_check_buf-elim :
      (tag : ℕ) (d : Dir)
      → ((n : ℕ) (q b : List ℕ) → P (with_buf d n q b))
      → P (dir_check_buf tag d)
  unfolding dir_check_buf
  dir_check_buf-elim tag d h = check_buf_loop-elim tag d.buf _ h
