-- ===== src/Shell.antt =====
-- src/repl/repl.c and cmds.c: the commands of the shell and how a line is routed to one. The C
-- library's `strtok` and `atoi` are the argument `Libc`; `load` (src/repl/load.c) is an argument
-- too. What is printed is left out. An `int` is its 32-bit pattern, so -1 is `minus_one`.
pub mod Repl
pub mod Commands
pub mod Loop
use Prim.Native.String.{String}
use Prim.Native.Char.{code}
use text.Mathlib.Text.{◌==◌ as str_eq}
use adventure.Base.{
  ℕ, zero, suc, ◌+◌, ◌-◌, ◌^◌, ◌==◌, ◌||◌, Bool, true, false, Option, none, some, List, [], ◌∷◌,
  if◌then◌else◌, Out, Cmd, ok, fault, hang, pure, ◌>>=◌, ◌>>◌, length,
}
use adventure.Fs.{Files, Os}
use adventure.Adv.{
  Db, Sds, adv_open, adv_close, adv_debug_print, adv_node_add, adv_edge_add, adv_edge_remove,
}
use adventure.Trie.{Strings, Trie, trie_create, trie_add, trie_get}

-- The bytes of a text.
abbrev pub codes : String → List ℕ
codes String.[] = []
codes (String.◌∷◌ c s) = code c ∷ codes s

abbrev pub minus_one : ℕ
minus_one = 2 ^ 32 - 1

pub record Libc : Type 0 where
  -- the argument (`none` is NULL), the delimiters and the position that was saved; the token
  -- (`none` is NULL) and the position that is saved
  pub strtok : Option String → String → String → Option String × String
  -- the `int` as a `node_p`
  pub atoi : String → ℕ

-- The global `db`: NULL, an open database, or one that was freed.
pub data Handle : Type 0 where
  null : Handle
  live : Db → Handle
  freed : Handle

pub record Shell : Type 0 where
  pub files : Files
  pub db : Handle
  pub saved : String

-- The functions that `register_cmds` names.
pub data Command : Type 0 where
  load_json status sting open_db close_db create_db add_node add_edge remove_edge debug_print :
      Command

module _ (os : Os) (fuel : ℕ) (sds : Sds) (libc : Libc) where
  unfoldable pub next_token : Option String → String → Cmd Shell (Option String)
  next_token arg delimiters s =
      let (token, rest) = libc.strtok arg delimiters s.saved in ok token (record s { saved = rest })

  -- `db = adv_open(tok, flags)`
  unfoldable pub assign_db : Out Files (Option Db) → Shell → Out Shell ℕ
  assign_db (ok (some d) files) s = ok 0 (record s { files = files; db = live d })
  assign_db (ok none files) s = ok 0 (record s { files = files; db = null })
  assign_db fault s = fault
  assign_db hang s = hang

  -- `open` and `create`, which differ in the flags.
  unfoldable pub open_with : Bool → Option String → Cmd Shell ℕ
  open_with create none s = ok 2 s
  open_with create (some name) s = assign_db (adv_open os fuel sds name create s.files) s

  -- What a call of adv.c on the open database leaves; its result is not looked at.
  unfoldable pub keep_db : Out Db ℕ → Shell → Out Shell ℕ
  keep_db (ok r d) s = ok 0 (record s { db = live d })
  keep_db fault s = fault
  keep_db hang s = hang

  -- `if(db) { … } return -1;`: a freed database is not NULL.
  unfoldable pub with_db : (Db → Out Db ℕ) → Handle → Shell → Out Shell ℕ
  with_db call null s = ok minus_one s
  with_db call (live d) s = keep_db (call d) s
  with_db call freed s = fault

  unfoldable pub close_handle : Out Files (Unit {0}) → Shell → Out Shell ℕ
  close_handle (ok u files) s = ok 0 (record s { files = files; db = freed })
  close_handle fault s = fault
  close_handle hang s = hang

  -- `close`: `db` is not reset.
  unfoldable pub close : Handle → Cmd Shell ℕ
  close null s = ok 0 s
  close (live d) s = close_handle (adv_close d s.files) s
  close freed s = fault

  -- The two node numbers of an edge command; `atoi(NULL)` is a fault. `db` is tested first.
  unfoldable pub edge_call : (ℕ → ℕ → Cmd Db ℕ) → Option String → Option String → Cmd Shell ℕ
  edge_call call (some a) (some b) s = with_db (call (libc.atoi a) (libc.atoi b)) s.db s
  edge_call call none b s = fault
  edge_call call (some a) none s = fault

  unfoldable pub edge_command : (ℕ → ℕ → Cmd Db ℕ) → Option String → Handle → Cmd Shell ℕ
  edge_command call line null s = ok minus_one s
  edge_command call line handle s =
      (do a ← next_token line " "; b ← next_token none " "; edge_call call a b) s

  -- `if(db) adv_debug_print(db); … return 0;`
  unfoldable pub print_db : Handle → Cmd Shell ℕ
  print_db null s = ok 0 s
  print_db (live d) s = keep_db ((adv_debug_print >> pure 0) d) s
  print_db freed s = fault

  module _ (load : String → Cmd Shell ℕ) where
    unfoldable pub load_file : Option String → Cmd Shell ℕ
    load_file none = pure 2
    load_file (some path) = load path

    -- A call of the function, `line` being its argument.
    unfoldable pub run : Command → Option String → Cmd Shell ℕ
    run load_json line s = (next_token line " " >>= load_file) s
    run status line s = ok 0 s
    run sting line s = ok 0 s
    run open_db line s = (next_token line " " >>= open_with false) s
    run create_db line s = (next_token line " " >>= open_with true) s
    run close_db line s = close s.db s
    run add_node line s = with_db (adv_node_add os fuel) s.db s
    run add_edge line s = edge_command (adv_edge_add os fuel) line s.db s
    run remove_edge line s = edge_command (adv_edge_remove os fuel) line s.db s
    run debug_print line s = print_db s.db s
