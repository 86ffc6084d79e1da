-- ===== src/Shell.antt =====
-- The commands of the kernel's terminal: what the loop of `start` in src/main.c does with a line that
-- was typed, up to the next prompt.
--
-- `currentProgram` is NULL here, so `print` is `terminalPrint`. The blocks of the strings are left
-- out. What `getUsedRam` returns is an argument, and so is the EFI library's `ValueToString`.
pub mod Example
pub mod Folders
pub mod Parent
pub mod Paths
pub mod Rounds
mod Tests
use mathlib.Core.List.{reverse}
use korby_os.Base.{
  ℕ, zero, suc, ◌+◌, ◌-◌, ◌*◌, ◌/◌, ◌%◌, ◌^◌, Bool, true, false, not, ◌&&◌, ◌||◌, Option, none,
  some, List, [], ◌∷◌, ◌++◌, ◌==◌, if◌then◌else◌, ltb, length, take, drop, ◌>>=◌,
}
use korby_os.Files.{File, check_file, check_folder, select}
use korby_os.Net.{Ip}
use korby_os.Programs.{Programs, execute, is_running}
use korby_os.Terminal.{Terminal, Draw, fill, draw, terminal_print, prompt}
use korby_os.Text.{Text, EfiText}

pub record Shell : Type 0 where
  pub terminal : Terminal
  pub directory : Text
  pub files : List File
  pub programs : Programs
  pub terminal_pid : ℕ
  pub ip : Ip
  pub dns : Ip

-- `UINT64_MAX`, for no program.
abbrev pub no_program : ℕ
no_program = 2 ^ 64 - 1

-- The text in a buffer: its units before the first 0.
unfoldable pub text_of : List ℕ → Text
text_of [] = []
text_of (c ∷ buffer) = elim (c == 0) [ true ↦ [] | false ↦ c ∷ text_of buffer ]

abbrev pub print : Text → Shell → Shell
print message s = record s { terminal = terminal_print message s.terminal }

-- `while (*current-- != L'/') count++;` on the units before `current`, the nearest first. A walk that
-- leaves the string is `none`.
unfoldable pub count_back : Text → Option ℕ
count_back [] = none
count_back (c ∷ before) =
    let rest = count_back before in if c == b'/' then some 0 else (rest >>= λ n. some (suc n))

-- The command `..`: the directory without its last part.
unfoldable pub parent : Text → Option Text
parent directory =
    if length directory == 1
    then some directory
    else (count_back (reverse (take (length directory - 1) directory)) >>= λ count.
        some (take (length directory - count - 1) directory))

-- The command `dir`, on the files that it found.
unfoldable pub print_names : ℕ → List File → Shell → Shell
print_names n [] s = s
print_names n (f ∷ files) s = print_names n files (print (b'\n' ∷ []) (print (drop n f.name) s))

-- `StrCmp(executeString + executeLength - 4, L".bin")`; before the start of the string it reads other
-- memory, and is `none`.
unfoldable pub ends_in_bin : EfiText → Text → Option Bool
ends_in_bin efi path =
    if ltb (length path) 4
    then none
    else some (efi.str_cmp (drop (length path - 4) path) (b'.' ∷ b'b' ∷ b'i' ∷ b'n' ∷ []) == 0)

abbrev pub not_executable : Text
not_executable =
    b'F' ∷ b'i' ∷ b'l' ∷ b'e' ∷ b' ' ∷ b'i' ∷ b's' ∷ b' ' ∷ b'n' ∷ b'o' ∷ b't' ∷ b' ' ∷ b'e' ∷ b'x'
    ∷ b'e' ∷ b'c' ∷ b'u' ∷ b't' ∷ b'a' ∷ b'b' ∷ b'l' ∷ b'e' ∷ b'.' ∷ b'\n' ∷ []

-- `terminalPid = execute(executeString);`. `execute` calls the program's own `start`, whose effect is an
-- argument.
abbrev pub start_program : (ℕ → Shell → Shell) → Shell → Option Shell
start_program start s = execute none s.programs >>= λ r.
    some (record (start r.0 (record s { programs = r.1 })) { terminal_pid = r.0 })

-- A file is executed or refused, by the end of its name.
unfoldable pub run_program : EfiText → (ℕ → Shell → Shell) → Text → Shell → Option Shell
run_program efi start path s = ends_in_bin efi path >>= λ program.
    if program then start_program start s else some (print not_executable s)

unfoldable pub clear : Shell → Shell
clear s = record s { terminal = record (draw fill s.terminal) { cursor_x = 0; cursor_y = 0 } }

-- What the programs' `update` functions do, which is an argument, and the prompt if none of the
-- programs was the terminal's. A program that ends meanwhile was still found.
unfoldable pub end_round : (Shell → Shell) → Shell → Option Shell
end_round updates t =
    (let found = is_running t.terminal_pid t.programs.running in
      let u = updates t in
      if not u.terminal.typing && not found
      then some (record u { terminal_pid = no_program; terminal = prompt u.directory u.terminal })
      else some u)

module _ (efi : EfiText) (value_to_string : ℕ → Text) where
  unfoldable pub print_usage : ℕ → Shell → Shell
  print_usage total s =
      print
        (b' ' ∷ b'b' ∷ b'y' ∷ b't' ∷ b'e' ∷ b's' ∷ b' ' ∷ b'o' ∷ b'f' ∷ b' ' ∷ b'r' ∷ b'a' ∷ b'm'
          ∷ b'.' ∷ b'\n' ∷ [])
        (print (value_to_string (total - total / 1000 * 1000)) (
          print (b' ' ∷ b'K' ∷ b'B' ∷ b' ' ∷ b'a' ∷ b'n' ∷ b'd' ∷ b' ' ∷ []) (
            print (value_to_string (total / 1000))
              (print (b'U' ∷ b's' ∷ b'i' ∷ b'n' ∷ b'g' ∷ b' ' ∷ []) s))))

  -- The four numbers of an address, with dots between them.
  unfoldable pub print_address : Ip → Shell → Shell
  print_address a s = print (value_to_string a.b3) (
      print (b'.' ∷ []) (
        print (value_to_string a.b2) (
          print (b'.' ∷ [])
            (print (value_to_string a.b1) (print (b'.' ∷ []) (print (value_to_string a.b0) s))))))

  unfoldable pub print_ip : Shell → Shell
  print_ip s = print (b'\n' ∷ []) (
      print_address s.dns (
        print
          (b'\n' ∷ b'D' ∷ b'N' ∷ b'S' ∷ b' ' ∷ b'a' ∷ b'd' ∷ b'd' ∷ b'r' ∷ b'e' ∷ b's' ∷ b's' ∷ b':'
            ∷ b' ' ∷ [])
          (print_address s.ip (
            print
              (b'I' ∷ b'P' ∷ b' ' ∷ b'a' ∷ b'd' ∷ b'd' ∷ b'r' ∷ b'e' ∷ b's' ∷ b's' ∷ b':' ∷ b' '
                ∷ [])
              s))))

  abbrev pub is_command : Text → Text → Bool
  is_command typed name = efi.str_cmp typed name == 0

  -- The commands that are no files and no folders.
  unfoldable pub run_command : ℕ → Text → Shell → Option Shell
  run_command used typed s =
      if is_command typed (b'c' ∷ b'l' ∷ b'e' ∷ b'a' ∷ b'r' ∷ [])
      then some (clear s)
      else if is_command typed (b'd' ∷ b'i' ∷ b'r' ∷ [])
      then some (print_names (length s.directory) (select efi s.directory false s.files) s)
      else if is_command typed (b'.' ∷ b'.' ∷ [])
      then (parent s.directory >>= λ d. some (record s { directory = d }))
      else if is_command typed (b'u' ∷ b's' ∷ b'a' ∷ b'g' ∷ b'e' ∷ [])
      then some (print_usage used s)
      else if is_command typed (b'i' ∷ b'p' ∷ [])
      then some (print_ip s)
      else some (
          print
            (b'C' ∷ b'o' ∷ b'm' ∷ b'm' ∷ b'a' ∷ b'n' ∷ b'd' ∷ b' ' ∷ b'o' ∷ b'r' ∷ b' ' ∷ b'e'
              ∷ b'x' ∷ b'e' ∷ b'c' ∷ b'u' ∷ b't' ∷ b'a' ∷ b'b' ∷ b'l' ∷ b'e' ∷ b' ' ∷ b'f' ∷ b'i'
              ∷ b'l' ∷ b'e' ∷ b' ' ∷ b'n' ∷ b'o' ∷ b't' ∷ b' ' ∷ b'f' ∷ b'o' ∷ b'u' ∷ b'n' ∷ b'd'
              ∷ b'.' ∷ b'\n' ∷ [])
            s)

  unfoldable pub run_line : (ℕ → Shell → Shell) → ℕ → Text → Shell → Option Shell
  run_line start used typed s =
      if efi.str_len typed == 0
      then some s
      else (let path = s.directory ++ typed in
          if check_file efi path s.files
          then run_program efi start path s
          else (check_folder efi path s.files >>= λ folder.
              if folder then some (record s { directory = path }) else run_command used typed s))

  -- A round of the loop: the line that was typed, and the rest of the round.
  unfoldable pub shell_round : (ℕ → Shell → Shell) → (Shell → Shell) → ℕ → Shell → Option Shell
  shell_round start updates used s =
      (if not s.terminal.typing && (s.terminal_pid == no_program)
        then run_line start used (text_of s.terminal.typing_buffer) s
        else some s)
      >>= end_round updates
