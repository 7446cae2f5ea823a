-- ===== src/Cache/Tests.antt =====
-- Runs of `notpres` and `hit_update`, and the theorems applied to two caches.
mod Victims
use rsim.Prelude.{
  ltb, ℕ, ◌+◌, ◌*◌, ◌%◌, ◌≡◌, refl, ◌<◌, true, false, none, some, arith, inl, ◌==◌, if◌then◌else◌,
}
use rsim.Prelude.Result.{fatal}
use rsim.Req.{ReqType, invalid, sh_cl, wb_nref}
use rsim.Cache.{Req, Line, Mshr, Cache, secondlevel, lru, request, ack, line}
use rsim.Cache.Lookup.{hit, total_miss, present_miss, find_line, found, notpres}
use rsim.Cache.Lru.{hit_loop, hit_step, touch, hit_update}
use rsim.Cache.Lru.{premiss_ageupdate}
use rsim.Cache.Fill.{premiss_ageupdate-order}
use rsim.Cache.Present.{Finds, notpres-Finds, notpres-bounds}
use rsim.Cache.Ages.{hit_update-order, hit_update-outside, hit_update-misses}

-- The line `k` holds the tag `k`, is as old as its place in a set of four says, and is shared, or
-- INVALID in the places 3 and 7.
abbrev a_line : ℕ → Line
a_line k = record {
  tag = some k;
  age = k % 4 + 1;
  dest_node = 0;
  pref = false;
  pref_tag_repl = none;
  st = if k % 4 == 3 then invalid else sh_cl;
  cohe_type = wb_nref;
  allo_type = true;
  mshr_out = false;
  cohe_pend = false;
}

abbrev no_mshr : Mshr
no_mshr = record {
  valid = false;
  setnum = 0;
  mainreq = 0;
  counter = 0;
  coal_req = λ i. 0;
  pend_cohe_type = ReqType.bad_req_type;
  stall_war = false;
  demand = none;
  only_prefs = false;
  writes_present = false;
}

-- two sets of four lines of 64 bytes
abbrev small_cache : Cache
small_cache = record {
  level = secondlevel;
  infinite = false;
  linesz = 64;
  setsz = 4;
  cohe_type = wb_nref;
  allo_type = true;
  adap_type = false;
  replacement = lru;
  cohe_rtn = λ s a r t. fatal;
  data_of = λ i k. a_line (i * 2048 + k);
  num_lines = 8;
  block_bits = 6;
  set_bits = 1;
  non_tag_bits = 7;
  mshrs = λ i. no_mshr;
  mshr_count = 0;
  reqmshr_count = 0;
  reqs_at_mshr_count = 0;
  max_mshrs = 2;
  wrb_buf_used = 0;
  node_num = 0;
  stat = record {
    pipe_stall_mshr_war = 0;
    pipe_stall_mshr_full = 0;
    pipe_stall_mshr_cohe = 0;
    pipe_stall_mshr_coal = 0;
    pipe_stall_wrb_match = 0;
    pipe_stall_wrbbuf_full = 0;
    pipe_stall_pend_cohe = 0;
    pref_useful = 0;
    pref_late = 0;
    pref_damaging = 0;
    pref_useless = 0;
  };
}

-- 4096 lines, in sets of four
abbrev large_cache : Cache
large_cache = record small_cache { num_lines = 4096; set_bits = 10; non_tag_bits = 16 }

abbrev a_read : Req
a_read = record {
  address = 832;
  tag = 13;
  linesz = 64;
  req_type = ReqType.read;
  prcr_req_type = ReqType.read;
  trans = request;
  reply_st = ack;
  nack_nok = false;
  prefetch = false;
  size_st = 0;
  size_req = 0;
  cohe_type = wb_nref;
  allo_type = true;
  dest_node = 0;
  read_with_write = false;
}

-- 832 lies in block 13, thus in set 1, with the tag 6, which the line 6 has.
notpres_hit : notpres 832 small_cache ≡ record { presence = hit; tag = 6; set = 1; set_ind = 6 }
unfolding notpres found find_line
notpres_hit = refl

-- The tag 7 is that of an INVALID line, and the tag 8 is in no line.
notpres_present :
    notpres 960 small_cache ≡ record { presence = present_miss; tag = 7; set = 1; set_ind = 7 }
unfolding notpres found find_line
notpres_present = refl

notpres_total :
    notpres 1088 small_cache ≡ record { presence = total_miss; tag = 8; set = 1; set_ind = 4 }
unfolding notpres found find_line
notpres_total = refl

-- a hit in the third line of the second set
hit_ages :
    ((line (hit_update 6 small_cache 1 a_read) 6).age ≡ 1)
    × ((line (hit_update 6 small_cache 1 a_read) 4).age ≡ 2)
    × ((line (hit_update 6 small_cache 1 a_read) 5).age ≡ 3)
    × ((line (hit_update 6 small_cache 1 a_read) 7).age ≡ 4)
unfolding hit_update hit_loop hit_step touch
hit_ages = (refl, refl, refl, refl)

notpres-Finds_example : Finds small_cache 832 (notpres 832 small_cache)
notpres-Finds_example = notpres-Finds 832 small_cache

-- the set 5 of the larger cache: the line 22 is not reached
hit_update-misses_example : line (hit_update 22 large_cache 5 a_read) 22 ≡ a_line 22
hit_update-misses_example = hit_update-misses 22 large_cache 5 a_read refl (omega arith)

-- the set of the line 22 in the larger cache
premiss_ageupdate-order_example :
    ((line (premiss_ageupdate large_cache 22 a_read true) 22).age ≡ 1)
    × (ltb
          (line (premiss_ageupdate large_cache 22 a_read true) 20).age
          (line (premiss_ageupdate large_cache 22 a_read true) 21).age
        ≡ true)
premiss_ageupdate-order_example =
    premiss_ageupdate-order large_cache 22 a_read true 20 21 refl (omega arith, omega arith)
      (omega arith, omega arith) (omega arith, omega arith) (λ _. ground arith) (λ _. ground arith)
      (omega arith) (omega arith) (omega arith)
