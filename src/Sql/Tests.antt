-- ===== src/Sql/Tests.antt =====
-- Runs of the text functions, and their theorems at these inputs.
use pdo_duckdb_php.Common.{
  ◌≡◌, refl, ◌++◌, [], ◌∷◌, codes, some, Bytes, c_str, length, ◌+◌, ◌≤◌, get_elem?, ◌↔◌, arith,
}
use pdo_duckdb_php.Sql.{zstr_prepare, zstr_strip_zerobytes, duckdb_handle_quoter, quoter_capacity}
use pdo_duckdb_php.Sql.Buffers.{
  without_nul, zstr_strip_zerobytes_lem, zstr_prepare_fits, quoter_fits,
}
use pdo_duckdb_php.Sql.Outside.{Outside, nil, plain}
use pdo_duckdb_php.Sql.Placeholders.{
  StartsName, EndsInColon, zstr_prepare-colon, zstr_prepare-other,
}
use pdo_duckdb_php.Sql.Literals.{read_literal, read_literal-quoter, zstr_prepare-quoter}

abbrev sql : Bytes
sql = codes "select ':a', \":b\", x::int where y = :name"

prepare_named : zstr_prepare sql ≡ codes "select ':a', \":b\", x::int where y = $name" ++ (0 ∷ [])
unfolding zstr_prepare
prepare_named = refl

-- A colon before a name is rewritten wherever no quotation is open, in a slice too.
prepare_slice : zstr_prepare (codes "l[a:b]") ≡ codes "l[a$b]" ++ (0 ∷ [])
unfolding zstr_prepare
prepare_slice = refl

strip_nul : zstr_strip_zerobytes (1 ∷ 0 ∷ 2 ∷ []) ≡ 1 ∷ 2 ∷ 0 ∷ []
unfolding zstr_strip_zerobytes
strip_nul = refl

quote_word : duckdb_handle_quoter (codes "it's") ≡ codes "'it''s'"
unfolding duckdb_handle_quoter
quote_word = refl

abbrev before : Bytes
before = codes "x = "

before-Outside : Outside before
before-Outside = search (nil, plain, arith)

zstr_strip_zerobytes_lem_example :
    (zstr_strip_zerobytes (7 ∷ 0 ∷ []) ≡ 7 ∷ 0 ∷ [])
    × (c_str (zstr_strip_zerobytes (7 ∷ 0 ∷ [])) ≡ 7 ∷ [])
    × (length (zstr_strip_zerobytes (7 ∷ 0 ∷ [])) ≤ 3)
zstr_strip_zerobytes_lem_example = zstr_strip_zerobytes_lem (7 ∷ 0 ∷ [])

zstr_prepare_fits_example :
    (c_str (zstr_prepare sql) ++ (0 ∷ []) ≡ zstr_prepare sql)
    × (length (c_str (zstr_prepare sql)) ≡ length (without_nul sql))
    × (length (zstr_prepare sql) ≤ length sql + 1)
zstr_prepare_fits_example = zstr_prepare_fits sql

quoter_fits_example : length (duckdb_handle_quoter (codes "it's")) + 1 ≤ quoter_capacity 4
quoter_fits_example = quoter_fits (codes "it's")

zstr_prepare-colon_example :
    (get_elem? (zstr_prepare (before ++ (b':' ∷ codes "n"))) (length (without_nul before))
      ≡ some b'$')
    ↔ (Outside before × StartsName (codes "n") × (¬ EndsInColon before))
zstr_prepare-colon_example = zstr_prepare-colon before (codes "n")

zstr_prepare-other_example :
    get_elem? (zstr_prepare (before ++ (b'7' ∷ []))) (length (without_nul before)) ≡ some b'7'
zstr_prepare-other_example = zstr_prepare-other before b'7' [] (omega arith) (omega arith)

read_literal-quoter_example :
    read_literal (duckdb_handle_quoter (codes "it's") ++ codes " or")
    ≡ some (codes "it's", codes " or")
read_literal-quoter_example = read_literal-quoter (codes "it's") (codes " or") (omega arith)

zstr_prepare-quoter_example :
    zstr_prepare (before ++ (duckdb_handle_quoter (codes ":x") ++ codes ":y"))
    ≡ c_str (zstr_prepare before)
      ++ (duckdb_handle_quoter (codes ":x") ++ zstr_prepare (codes ":y"))
zstr_prepare-quoter_example =
    zstr_prepare-quoter before (codes ":x") (codes ":y") before-Outside (omega arith)
