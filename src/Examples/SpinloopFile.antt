-- ===== src/Examples/SpinloopFile.antt =====
-- A Spinloop file, written and read (internal/spinloop).
use spinloop.Prelude.{◌≡◌, refl, [], ◌∷◌, ◌++◌, arith}
use spinloop.Prelude.Result.{ok}
use spinloop.Prelude.Text.{Text, codes, pieces, trim, fields, cut_at, drop_cr}
use spinloop.SpinloopFile.{
  Selection, model, provider, nothing, parse, read_line, instruction, upper_name, canonical_keyword,
  cut_or_all, add_param,
}
use spinloop.SpinloopFile.Line.{ascii_lower, IsLower}
use spinloop.SpinloopFile.Hash.{read_line-hash}

abbrev lowers : IsLower ascii_lower
lowers c h = refl

abbrev selection : Selection
selection = record nothing {
  provider = codes "llamacpp";
  model = codes "org/m:Q4";
  context = codes "128k";
  params =
      record { key = codes "jinja"; value = [] }
      ∷ record { key = codes "tpl"; value = codes "a = b" }
      ∷ [];
  env = record { key = codes "AWS_PROFILE"; value = codes "dev" } ∷ [];
}

file : Text
file =
    codes "# one provider\n"
    ++ codes "provider llamacpp  # the engine\n"
    ++ codes "MODEL org/m:Q4\n"
    ++ codes "Context\t128k\n"
    ++ codes "PARAM jinja =\n"
    ++ codes "PARAM tpl = a = b\n"
    ++ codes "ENV AWS_PROFILE=dev\n"

reads_file : parse ascii_lower file ≡ ok selection
unfolding parse file canonical_keyword cut_or_all add_param trim fields cut_at pieces drop_cr
reads_file = refl

-- `MODEL org/m#2` is read as `MODEL org/m`.
read_line-hash_example :
    read_line ascii_lower 2
      (instruction (upper_name model) (codes "org/m" ++ b'#' ∷ codes "2"))
      (record { sel = nothing; seen = (provider, 1) ∷ [] })
    ≡ ok (record {
      sel = record nothing { model = codes "org/m" };
      seen = (model, 2) ∷ (provider, 1) ∷ [];
    })
read_line-hash_example =
    read_line-hash ascii_lower 2 model (codes "org/m") (codes "2")
      (record { sel = nothing; seen = (provider, 1) ∷ [] }) lowers (cc) (ground arith)
      (ground arith) refl
