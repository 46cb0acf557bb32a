-- ===== src/Examples/Store.antt =====
-- Assets of two calls, for internal/db/store.go.
use scopepilot.Prelude.{◌≡◌, ◌≢◌, true, List, [], ◌∷◌}
use scopepilot.Number.{pos}
use scopepilot.Text.{Text, codes, text_eq_iff, text_keys}
use scopepilot.Store.{Asset, MemoryStore, new_memory_store, get_assets, record_assets}
use scopepilot.Store.Assets.{find_asset, renewed_by, record_assets-find}

abbrev asset : Text → Text → Asset
asset h source = record {
  host_name = h;
  source = source;
  first_seen = 0;
  last_seen = 0;
  in_scope = true;
  tech = codes "go" ∷ [];
}

abbrev program : Text
program = codes "p"

abbrev found : List Asset
found =
    asset (codes "b.c") (codes "bbot")
    ∷ asset (codes "b.c") (codes "manual")
    ∷ asset (codes "d.e") []
    ∷ []

empty : MemoryStore Text
empty = new_memory_store (pos 10)

before : MemoryStore Text
before = record_assets empty 5 program (asset (codes "b.c") (codes "bbot") ∷ [])

other_program : program ≢ codes "q"
other_program e = cc ((text_eq_iff program (codes "q")).1 e)

record_assets-find_example :
    (find_asset (codes "b.c") (get_assets (record_assets before 9 program found) program)
      ≡ renewed_by 9 (codes "b.c") found (find_asset (codes "b.c") (get_assets before program)))
    × (get_assets (record_assets before 9 program found) (codes "q")
        ≡ get_assets before (codes "q"))
record_assets-find_example =
    record_assets-find before 9 program (codes "q") found (codes "b.c") other_program
