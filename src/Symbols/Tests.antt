-- ===== src/Symbols/Tests.antt =====
-- A function of 0x20 bytes with a label inside it, and a label of its own far behind it.
use ghidra_unicorn.Prelude.{
  nat_eq, string_eq, ◌≡◌, refl, Bool, true, some, List, [], ◌∷◌, String, sort, place,
}
use ghidra_unicorn.Symbols.{
  Symbol, SymbolTable, nearest, enclosing, describe, extend, contains, bisect_right, symbol_le, nth,
  back_up, enclosing_from, label_from, with_size,
}
use ghidra_unicorn.Symbols.Sorted.{extend-Ascending}
use ghidra_unicorn.Symbols.Nearest.{NearestIn, nearest-NearestIn}
use ghidra_unicorn.Symbols.Described.{DescribedIn, describe-DescribedIn}
use ghidra_unicorn.Symbols.Enclosing.{EnclosedIn, enclosing-EnclosedIn}

abbrev name_le : String → String → Bool
name_le a b = true

abbrev main_symbol : Symbol
main_symbol = record { name = "main"; address = 0x1000; size = 0x20; kind = "function" }

abbrev loop_symbol : Symbol
loop_symbol = record { name = "loop"; address = 0x1008; size = 0; kind = "label" }

abbrev data_symbol : Symbol
data_symbol = record { name = "data"; address = 0x2000; size = 0; kind = "label" }

abbrev given : List Symbol
given = data_symbol ∷ loop_symbol ∷ main_symbol ∷ []

abbrev empty_table : SymbolTable
empty_table = record { image_base = 0; by_name = []; sorted = []; sized = [] }

abbrev table : SymbolTable
table = extend name_le given empty_table

nearest_loop : nearest 0x100c table ≡ some (loop_symbol, 4)
unfolding nearest bisect_right extend sort place symbol_le nth back_up
nearest_loop = refl

enclosing_main : enclosing 0x100c table ≡ some (main_symbol, 0xc)
unfolding enclosing enclosing_from bisect_right extend with_size sort place symbol_le nth contains
enclosing_main = refl

described_main : describe 0x100c 0x10000 table ≡ some ("main", 0xc)
unfolding describe label_from enclosing enclosing_from bisect_right extend with_size sort place
    symbol_le nth contains
described_main = refl

described_data : describe 0x2004 0x10000 table ≡ some ("data", 4)
unfolding describe label_from enclosing enclosing_from bisect_right extend with_size sort place
    symbol_le nth contains
described_data = refl

nearest-NearestIn_example : NearestIn 0x100c table.sorted (nearest 0x100c table)
nearest-NearestIn_example =
    nearest-NearestIn 0x100c table (extend-Ascending name_le given empty_table).0

enclosing-EnclosedIn_example : EnclosedIn 0x100c table.sized (enclosing 0x100c table)
enclosing-EnclosedIn_example =
    enclosing-EnclosedIn 0x100c table (extend-Ascending name_le given empty_table).1

describe-DescribedIn_example :
    DescribedIn 0x2004 0x10000 table (enclosing 0x2004 table) (describe 0x2004 0x10000 table)
describe-DescribedIn_example =
    describe-DescribedIn 0x2004 0x10000 table (extend-Ascending name_le given empty_table).0
