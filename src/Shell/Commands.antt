-- ===== src/Shell/Commands.antt =====
-- The table of the commands, and what the trie of `register_cmds` makes of a name and of a line.
use Prim.Native.String.{String}
use mathlib.Core.Path.{fun_ext}
use adventure.Base.{
  ℕ, suc, ◌-◌, ◌<◌, ◌≡◌, refl, ap, ◌∙◌, Bool, true, Option, none, some, List, [], ◌∷◌, map, Cmd, ok,
  fault, inl, inr, Bool-cases, if◌then◌else◌, hang, ◌>>=◌, arith,
}
use adventure.Fs.{Os}
use adventure.Adv.{Sds}
use adventure.Trie.{
  Strings, Documented, Trie, trie_create, trie_add, key_len, add_below, insert_node, trie_make_node,
  after_loop, add_children, push, after_child,
}
use adventure.Trie.Form.{IsTrie, is_trie-IsTrie}
use adventure.Trie.Leaves.{same_bytes, find_leaf, leaves, trie_get-leaves}
use adventure.Trie.Reference.{reference, trie_add-reference}
use adventure.Shell.{
  codes, minus_one, Libc, Shell, Command, load_json, status, sting, open_db, close_db, create_db,
  add_node, add_edge, remove_edge, debug_print, next_token, run,
}
use adventure.Shell.Repl.{
  pointer, register_with, repl_add_cmd, register_cmds, call_fn, route, repl_route_cmd,
}

-- The names of the commands, those with a common beginning side by side.
abbrev pub table : List (String × Command)
table =
    ("load", load_json)
    ∷ ("status", status)
    ∷ ("stats", status)
    ∷ ("sting!", sting)
    ∷ ("create", create_db)
    ∷ ("close", close_db)
    ∷ ("open", open_db)
    ∷ ("+n", add_node)
    ∷ ("+e", add_edge)
    ∷ ("-e", remove_edge)
    ∷ ("debug", debug_print)
    ∷ []

-- The command of a name.
abbrev pub find_command : List (String × Command) → (cmd : String) → Option Command
find_command [] cmd = none
find_command ((name, fn) ∷ rest) cmd =
    if same_bytes (codes name) (codes cmd) then some fn else find_command rest cmd

abbrev row : String × Command → List ℕ × ℕ
row (name, fn) = (codes name, pointer fn)

abbrev pub rows : List (List ℕ × ℕ)
rows = map row table

abbrev pub cmds : Trie
cmds = elim (register_cmds reference 8 trie_create) [
  | ok r t ↦ t
  | fault ↦ trie_create
  | hang ↦ trie_create
]

leaves-cmds : leaves cmds ≡ rows
unfolding trie_add register_cmds repl_add_cmd key_len add_below insert_node trie_make_node
    after_loop add_children push after_child
leaves-cmds = refl

cmds-IsTrie : IsTrie cmds
unfolding trie_add register_cmds repl_add_cmd key_len add_below insert_node trie_make_node
    after_loop add_children push after_child
cmds-IsTrie = is_trie-IsTrie cmds refl

abbrev seven_more : ℕ → ℕ
seven_more n = suc (suc (suc (suc (suc (suc (suc n))))))

register_cmds-reference :
    (n : ℕ) → register_cmds reference (seven_more n) trie_create ≡ ok true cmds
unfolding trie_add register_cmds repl_add_cmd key_len add_below insert_node trie_make_node
    after_loop add_children push after_child
register_cmds-reference n = refl

module _ {strings : Strings} (doc : Documented strings) where
  register_cmds-eq : (fuel : ℕ) → register_cmds strings fuel ≡ register_cmds reference fuel
  unfolding register_cmds repl_add_cmd
  register_cmds-eq fuel =
      ap (λ (add : String → Command → Cmd Trie Bool). register_with add)
        (fun_ext
          λ str. fun_ext λ fn. fun_ext (trie_add-reference doc (codes str) (pointer fn) fuel))

  register_cmds-cmds : (fuel : ℕ) → 6 < fuel → register_cmds strings fuel trie_create ≡ ok true cmds
  register_cmds-cmds fuel enough =
      let e : fuel ≡ seven_more (fuel - 7) = omega arith in
      ap (λ (m : Cmd Trie Bool). m trie_create) (register_cmds-eq fuel)
      ∙ ap (λ n. register_cmds reference n trie_create) e
      ∙ register_cmds-reference (fuel - 7)

module _ (os : Os) (fuel : ℕ) (sds : Sds) (libc : Libc) (load : String → Cmd Shell ℕ) where
  -- The command that was found, on the rest of the line.
  abbrev pub run_found : Option Command → Cmd Shell ℕ
  run_found none s = ok minus_one s
  run_found (some fn) s = (next_token os fuel sds libc none "" >>= run os fuel sds libc load fn) s

  -- What a line is to do: its first token names the command, and no token at all is a fault.
  abbrev pub dispatch : (cmd : Option String) → Cmd Shell ℕ
  dispatch none s = fault
  dispatch (some cmd) s = run_found (find_command table cmd) s

  call_fn-pointer :
      (strings : Strings) (fn : Command) (s : Shell)
      → call_fn os fuel sds strings libc load (pointer fn) s ≡ run_found (some fn) s
  unfolding call_fn
  call_fn-pointer strings load_json s = refl
  call_fn-pointer strings status s = refl
  call_fn-pointer strings sting s = refl
  call_fn-pointer strings open_db s = refl
  call_fn-pointer strings close_db s = refl
  call_fn-pointer strings create_db s = refl
  call_fn-pointer strings add_node s = refl
  call_fn-pointer strings add_edge s = refl
  call_fn-pointer strings remove_edge s = refl
  call_fn-pointer strings debug_print s = refl

  call_fn-found :
      (strings : Strings) (rs : List (String × Command)) (cmd : String) (s : Shell)
      → call_fn os fuel sds strings libc load
          (elim (find_leaf (map row rs) (codes cmd)) [ none ↦ 0 | some v ↦ v ])
          s
        ≡ run_found (find_command rs cmd) s
  unfolding call_fn
  call_fn-found strings [] cmd s = refl
  call_fn-found strings ((name, fn) ∷ rs) cmd s =
      elim (Bool-cases (same_bytes (codes name) (codes cmd))) [
        | inl e ↦ rw e (call_fn-pointer strings fn s)
        | inr e ↦ rw e (call_fn-found strings rs cmd s)
      ]

  module _ {strings : Strings} (doc : Documented strings) where
    route-dispatch :
        (cmd : Option String) (s : Shell)
        → route os fuel sds strings libc load cmds cmd s ≡ dispatch cmd s
    unfolding route
    route-dispatch none s = refl
    route-dispatch (some cmd) s =
        ap (λ fn. call_fn os fuel sds strings libc load fn s)
          (trie_get-leaves doc cmds (codes cmd) cmds-IsTrie
            ∙ ap (λ rs. elim (find_leaf rs (codes cmd)) [ none ↦ 0 | some v ↦ v ]) leaves-cmds)
        ∙ call_fn-found strings table cmd s

    -- The trie of the commands routes every line as the table does.
    pub repl_route_cmd-dispatch :
        6 < fuel
        → (t : Trie) × (register_cmds strings fuel trie_create ≡ ok true t)
          × ((line : String)
              → repl_route_cmd os fuel sds strings libc load t line
                ≡ (next_token os fuel sds libc (some line) " " >>= dispatch))
    unfolding repl_route_cmd
    repl_route_cmd-dispatch enough = (
      cmds,
      register_cmds-cmds doc fuel enough,
      λ line.
          ap
            (λ (k : Option String → Cmd Shell ℕ). next_token os fuel sds libc (some line) " " >>= k)
            (fun_ext λ cmd. fun_ext (route-dispatch cmd)),
    )
