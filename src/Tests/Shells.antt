-- ===== src/Tests/Shells.antt =====
-- A library of C functions that knows one line, a shell with an open database, and the runs on it.
use Prim.Native.String.{String}
use adventure.Base.{ℕ, none, Cmd, ok}
use adventure.Adv.{Sds}
use adventure.Shell.{Libc, Shell, live}
use adventure.Tests.Graphs.{db}

-- The line is the whole token.
abbrev libc : Libc
libc = record { strtok = λ arg delimiters saved. (arg, saved); atoi = λ token. 0 }

abbrev sds : Sds
sds = record { sdscatprintf = λ format args. format }

abbrev shell : Shell
shell = record { files = λ path. none; db = live db; saved = "" }

abbrev load : String → Cmd Shell ℕ
load path s = ok 0 s
