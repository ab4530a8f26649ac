-- ===== src/Shell/Loop.antt =====
-- The shell as a loop over lines that looks commands up in a table.
use Prim.Native.String.{String}
use text.Mathlib.Text.{◌==◌ as str_eq}
use adventure.Base.{ℕ, List, [], ◌∷◌, ◌||◌, if◌then◌else◌, Cmd, ok, ◌>>=◌, ◌>>◌, some}
use adventure.Fs.{Os}
use adventure.Adv.{Sds}
use adventure.Trie.{Trie}
use adventure.Shell.{Libc, Shell, next_token}
use adventure.Shell.Commands.{dispatch}

module _ (os : Os) (fuel : ℕ) (sds : Sds) (libc : Libc) (load : String → Cmd Shell ℕ) where
  -- An empty line is skipped, q, quit and exit end the loop, and the first token of any other line
  -- is looked up in the table.
  unfoldable pub run_lines : List String → Cmd Shell (Unit {0})
  run_lines [] s = ok tt s
  run_lines (line ∷ lines) s =
      let rest = run_lines lines in
      if str_eq line ""
      then rest s
      else if str_eq line "q" || str_eq line "quit" || str_eq line "exit"
      then ok tt s
      else (next_token os fuel sds libc (some line) " " >>= dispatch os fuel sds libc load >> rest)
          s
