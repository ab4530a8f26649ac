-- ===== src/Nodes/Fresh.antt =====
-- The node file that `store_open` has just created: `adv_node_add` does not begin at 0.
use adventure.Base.{ℕ, suc, true, ◌*◌, ◌^◌, ◌≤◌, ◌<◌, ◌≡◌, arith, Returns, Returns-mono}
use adventure.Fs.{FsMap, Os, Grants}
use adventure.Open.{open_map}
use adventure.Open.Fresh.{IsInitial, open_map-IsFresh}
use adventure.Nodes.{nodes_count}

module _ {os : Os} {limit : ℕ} (grants : Grants os limit) (small : limit < 2 ^ 63) (k : ℕ)
    (m : FsMap) (i : IsInitial m) (room : 96 ≤ 64 * 2 ^ k) (granted : 64 * 2 ^ k ≤ limit) where
  -- A node file of 64 bytes that was created just now, with room to grow (the file doubled k times
  -- holds what is asked for, within a granted limit below 2^63), counts four nodes after
  -- store_open.
  pub open_map-nodes_count : Returns (λ _ g. nodes_count g ≡ 4) (open_map os (suc k) true m)
  unfolding nodes_count
  open_map-nodes_count =
      Returns-mono (open_map-IsFresh grants small k m i room granted)
        (λ _ g f. omega (arith, f.end_at))
