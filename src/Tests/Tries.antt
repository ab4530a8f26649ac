-- ===== src/Tests/Tries.antt =====
-- A trie of two strings, and the runs on it.
use adventure.Base.{◌≡◌, refl, true, none, some, ok, arith}
use adventure.Trie.{Trie, leaf, branch, nil, cons, trie_add, trie_get}
use adventure.Trie.Form.{is_trie-IsTrie}
use adventure.Trie.Loop.{Added}
use adventure.Trie.Add.{trie_add-Added}
use adventure.Trie.Leaves.{trie_get-leaves}
use adventure.Trie.Reference.{reference, reference-Documented}
use adventure.Shell.{codes}

-- "s" and "st", added in this order.
abbrev hidden : Trie
hidden =
    branch none 0 (cons (branch (some (codes "s")) 5 (cons (leaf (some (codes "st")) 7) nil)) nil)

trie_add-Added_example :
    (u : Trie) × (trie_add reference 8 (codes "sta") 9 hidden ≡ ok true u)
    × Added reference-Documented (codes "sta") 9 hidden u
trie_add-Added_example =
    trie_add-Added reference-Documented (codes "sta") 9 8 hidden (is_trie-IsTrie hidden refl) refl
      (omega arith)

trie_get-leaves_example : trie_get reference hidden (codes "st") ≡ 7
trie_get-leaves_example =
    trie_get-leaves reference-Documented hidden (codes "st") (is_trie-IsTrie hidden refl)
