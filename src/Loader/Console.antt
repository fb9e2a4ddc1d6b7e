-- ===== src/Loader/Console.antt =====
-- The output of `bootloader/src/main.rs`: text is a list of characters, as numbers, or of bytes.
use Prim.Native.String.{String}
use vitr_os.Base.{
  ℕ, zero, suc, ◌-◌, ◌%◌, ◌^◌, min, List, [], ◌∷◌, ◌++◌, ◌==◌, if◌then◌else◌, length, take,
  replicate,
}

-- `c as u16`.
abbrev pub to_u16 : ℕ → ℕ
to_u16 c = c % 2 ^ 16

-- The characters that go into a buffer with room for `n`.
unfoldable pub put_chars : ℕ → List ℕ → List ℕ
put_chars zero l = []
put_chars (suc n) [] = []
put_chars (suc n) (c ∷ l) = to_u16 c ∷ put_chars n l

-- What `print_con` passes on: at most 255 characters, and the terminator.
abbrev pub print_con : List ℕ → List ℕ
print_con s = put_chars 255 s ++ (0 ∷ [])

abbrev pub println_con : List ℕ → List (List ℕ)
println_con s = print_con s ∷ print_con (13 ∷ 10 ∷ []) ∷ []

-- The bytes written, of a buffer of 512.
pub record BufWriter : Type 0 where
  pub written : List ℕ

abbrev pub new : BufWriter
new = record { written = [] }

unfoldable pub write_str : List ℕ → BufWriter → BufWriter
write_str bytes w =
    let remaining = 512 - length w.written in
    record { written = w.written ++ take (min (length bytes) remaining) bytes }

-- The array of 32 elements, of which the last stays 0.
unfoldable pub to_utf16 : List ℕ → List ℕ
unfolding put_chars
to_utf16 s = let chars = put_chars 31 s in chars ++ replicate (32 - length chars) 0

unfoldable pub memory_type_str : ℕ → String
memory_type_str mem_type =
    if mem_type == 0
    then "Reserved"
    else if mem_type == 1
    then "LoaderCode"
    else if mem_type == 2
    then "LoaderData"
    else if mem_type == 3
    then "BSCode"
    else if mem_type == 4
    then "BSData"
    else if mem_type == 5
    then "RTCode"
    else if mem_type == 6
    then "RTData"
    else if mem_type == 7
    then "Available"
    else if mem_type == 8
    then "Unusable"
    else if mem_type == 9
    then "ACPIReclaim"
    else if mem_type == 10
    then "ACPINVS"
    else if mem_type == 11
    then "MMIO"
    else if mem_type == 12
    then "MMIOPort"
    else if mem_type == 13
    then "PALCode"
    else "Unknown"
