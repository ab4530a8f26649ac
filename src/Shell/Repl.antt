-- ===== src/Shell/Repl.antt =====
-- src/repl/repl.c and main.c: the commands by name, the routing of a line and the loop over the
-- lines that linenoise returns; the list's end is its NULL. A function pointer is a number, 0 is
-- NULL. The prompt, the history and the greeting are left out, and the release of the memory.
use Prim.Native.String.{String}
use text.Mathlib.Text.{◌==◌ as str_eq}
use adventure.Base.{
  ℕ, zero, suc, Bool, Option, none, some, List, [], ◌∷◌, ◌||◌, if◌then◌else◌, get_elem?, Out, Cmd,
  ok, fault, hang, pure, ◌>>=◌, ◌>>◌,
}
use adventure.Fs.{Os}
use adventure.Adv.{Sds}
use adventure.Trie.{Strings, Trie, trie_create, trie_add, trie_get, trie_get_keys}
use adventure.Shell.{
  codes, minus_one, Libc, Shell, Command, load_json, status, sting, open_db, close_db, create_db,
  add_node, add_edge, remove_edge, debug_print, next_token, run,
}

-- The address of a function.
abbrev pub pointer : Command → ℕ
pointer load_json = 1
pointer status = 2
pointer sting = 3
pointer open_db = 4
pointer close_db = 5
pointer create_db = 6
pointer add_node = 7
pointer add_edge = 8
pointer remove_edge = 9
pointer debug_print = 10

-- The functions by their addresses, from 1 on.
abbrev pub functions : List Command
functions =
    load_json ∷ status ∷ sting ∷ open_db ∷ close_db ∷ create_db ∷ add_node ∷ add_edge ∷ remove_edge
    ∷ debug_print ∷ []

unfoldable pub repl_wants_exit : (line : String) → Bool
repl_wants_exit line = str_eq line "q" || str_eq line "quit" || str_eq line "exit"

unfoldable pub repl_add_cmd : Strings → (fuel : ℕ) → String → Command → Cmd Trie Bool
repl_add_cmd strings fuel str fn = trie_add strings fuel (codes str) (pointer fn)

-- The calls of `register_cmds`, `add` being `repl_add_cmd`.
abbrev pub register_with : (String → Command → Cmd Trie Bool) → Cmd Trie Bool
register_with add = do
  add "load" load_json
  add "status" status
  add "stats" status
  add "sting!" sting
  add "create" create_db
  add "open" open_db
  add "close" close_db
  add "+n" add_node
  add "+e" add_edge
  add "-e" remove_edge
  add "debug" debug_print

unfoldable pub register_cmds : Strings → (fuel : ℕ) → Cmd Trie Bool
register_cmds strings fuel = register_with (repl_add_cmd strings fuel)

-- The keys that are proposed for what was typed.
unfoldable pub completion : Strings → Trie → (buf : String) → List (Option (List ℕ))
completion strings cmds buf = trie_get_keys strings cmds (codes buf) []

module _ (os : Os) (fuel : ℕ) (sds : Sds) (strings : Strings) (libc : Libc)
    (load : String → Cmd Shell ℕ) where
  -- `if(fn) return fn(strtok(NULL, "\0")); return -1;`
  unfoldable pub call_fn : (fn : ℕ) → Cmd Shell ℕ
  call_fn zero s = ok minus_one s
  call_fn (suc n) s = elim (get_elem? functions n) [
    | none ↦ fault
    | some fn ↦ (next_token os fuel sds libc none "" >>= run os fuel sds libc load fn) s
  ]

  -- The comparison with NULL is a fault.
  unfoldable pub route : Trie → (cmd : Option String) → Cmd Shell ℕ
  route cmds none s = fault
  route cmds (some cmd) s = call_fn (trie_get strings cmds (codes cmd)) s

  unfoldable pub repl_route_cmd : Trie → (line : String) → Cmd Shell ℕ
  repl_route_cmd cmds line = next_token os fuel sds libc (some line) " " >>= route cmds

  -- A pass of the loop, `rest` being the passes for the lines behind it.
  unfoldable pub read_line : Trie → (line : String) → Cmd Shell (Unit {0}) → Cmd Shell (Unit {0})
  read_line cmds line rest s =
      if str_eq line ""
      then rest s
      else if repl_wants_exit line
      then ok tt s
      else (repl_route_cmd cmds line >> rest) s

  unfoldable pub read_lines : Trie → List String → Cmd Shell (Unit {0})
  read_lines cmds [] = pure tt
  read_lines cmds (line ∷ lines) = read_line cmds line (read_lines cmds lines)

  -- The loop, once the commands are registered.
  unfoldable pub read_with : Out Trie Bool → List String → Cmd Shell ℕ
  read_with (ok r cmds) lines = read_lines cmds lines >> pure 0
  read_with fault lines = λ s. fault
  read_with hang lines = λ s. hang

  unfoldable pub repl : List String → Cmd Shell ℕ
  repl lines = read_with (register_cmds strings fuel trie_create) lines

  -- `main` of main.c: the arguments behind the program's name.
  unfoldable pub main_loop : (args lines : List String) → Cmd Shell ℕ
  main_loop [] lines = repl lines
  main_loop (arg ∷ args) lines = pure (if str_eq arg "-help" then 0 else 1)
