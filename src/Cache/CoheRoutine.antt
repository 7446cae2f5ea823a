-- ===== src/Cache/CoheRoutine.antt =====
-- `cache_get_cohe_type` (MemSys/cache2.c): the coherence type, allocation type and home node of an
-- access.
use rsim.Prelude.{
  ℕ, ◌/◌, ◌%◌, ◌^◌, Bool, true, false, Option, none, some, ◌==◌, if◌then◌else◌, update,
}
use rsim.Prelude.Result.{Result, ok, fatal, ◌>>=◌}
use rsim.Req.{CoheType, pr_wt, pr_wb, wt_inv, wt_upd, wb_ref, wb_nref, wtwsh_ref, wtwsh_nref, nc}
use rsim.Cache.{Cache, line_at}
use rsim.Cache.Lookup.{Presence, total_miss}

-- What MemSys/associate.c holds: the home node and the coherence word of a block, where one is set.
pub record AddrMap : Type 0 where
  pub node_of : ℕ → Option ℕ
  pub cohe_of : ℕ → Option ℕ

-- the three results of `cache_get_cohe_type`
pub record Access : Type 0 where
  pub cohe_type : CoheType
  pub allo_type : Bool
  pub node : ℕ

-- the number of a coherence type (cohe_types.h)
pub cohe_numbered : ℕ → Option CoheType
cohe_numbered n =
    if n == 1
    then some pr_wt
    else if n == 2
    then some pr_wb
    else if n == 3
    then some wt_inv
    else if n == 4
    then some wt_upd
    else if n == 5
    then some wb_ref
    else if n == 6
    then some wb_nref
    else if n == 7
    then some wtwsh_ref
    else if n == 8
    then some wtwsh_nref
    else if n == 9
    then some nc
    else none

-- the types that the code lets pass
abbrev pub is_supported : CoheType → Bool
is_supported pr_wt = true
is_supported pr_wb = true
is_supported wb_nref = true
is_supported nc = true
is_supported _ = false

-- A coherence word holds the type in its low 8 bits and the allocation type in the next one.
pub decode : ℕ → Result (CoheType × Bool)
unfolding cohe_numbered
decode x = elim (cohe_numbered (x % 2 ^ 8)) [
  | none ↦ fatal
  | some t ↦ ok (t, ((x / 2 ^ 8) % 2) == 1)
]

unfoldable pub types_of :
    AddrMap → Cache → Presence → (set_ind address : ℕ) → Result (CoheType × Bool)
unfolding decode
types_of m c presence set_ind address =
    if c.adap_type
    then elim presence [
      | total_miss ↦ elim (m.cohe_of (address / 2 ^ c.block_bits)) [
        | none ↦ ok (c.cohe_type, c.allo_type)
        | some x ↦ decode x
      ]
      | _ ↦ let l = line_at false c.data_of set_ind in ok (l.cohe_type, l.allo_type)
    ]
    else ok (c.cohe_type, c.allo_type)

-- On a total miss the home node is looked up, and an unlisted block goes to the node that asks first.
unfoldable pub home_of :
    (num_nodes : ℕ) → AddrMap → Cache → Presence → (set_ind address : ℕ) → ℕ × AddrMap
home_of num_nodes m c total_miss set_ind address =
    if num_nodes == 1 then (0, m) else elim (m.node_of (address / 2 ^ c.block_bits)) [
      | some n ↦ (n, m)
      | none ↦ (
        c.node_num,
        record m { node_of = update m.node_of (address / 2 ^ c.block_bits) (some c.node_num) },
      )
    ]
home_of num_nodes m c _ set_ind address = ((line_at false c.data_of set_ind).dest_node, m)

-- an unknown type ends the simulation
unfoldable pub checked : CoheType × Bool → ℕ × AddrMap → Result (Access × AddrMap)
checked t h =
    if is_supported t.0
    then ok (record { cohe_type = t.0; allo_type = t.1; node = h.0 }, h.1)
    else fatal

-- `cache_get_cohe_type`
unfoldable pub cache_get_cohe_type :
    (num_nodes : ℕ) → AddrMap → Cache → Presence → (set_ind address : ℕ) → Result (Access × AddrMap)
unfolding types_of home_of checked
cache_get_cohe_type num_nodes m c presence set_ind address =
    types_of m c presence set_ind address
    >>= (λ t. checked t (home_of num_nodes m c presence set_ind address))
