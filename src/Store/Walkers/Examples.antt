-- ===== src/Store/Walkers/Examples.antt =====
-- A walk over two codes, with a callback that collects ids.
use qurator.Common.{
  ℕ, ◌↔◌, refl, List, [], ◌∷◌, Text, bytes, ok, values, In, Ascending, All, Distinct, text_eq,
  text_beq, lookup,
}
use qurator.Domain.{Code}
use qurator.Domain.Samples.{draft}
use qurator.Store.State.{MemStore, Ctx, live, new_mem_store}
use qurator.Store.Rows.{OwnId}
use qurator.Store.Walkers.{Callback, code_before, for_each_code}
use qurator.Store.Walkers.Visits.{Walked, for_each_code-Visited}

abbrev cellar : MemStore
cellar = record new_mem_store {
  codes =
      (bytes "cod_2", draft (bytes "cod_2") (bytes "shop"))
      ∷ (bytes "cod_1", draft (bytes "cod_1") (bytes "menu"))
      ∷ [];
}

abbrev collect : Callback Code (List Text) ℕ
collect c seen = (ok tt, c.id ∷ seen)

abbrev awake : ℕ → Ctx
awake i = live

cellar_Distinct : Distinct cellar.codes
unfolding lookup text_beq
cellar_Distinct = (refl, (refl, tt))

cellar_OwnId : All OwnId cellar.codes
cellar_OwnId = (refl, (refl, tt))

for_each_code-Visited_example :
    (rows : List Code) × Ascending code_before rows
    × ((c : Code) → In c rows ↔ In c (values cellar.codes))
    × Walked collect awake rows [] (for_each_code awake collect cellar [])
for_each_code-Visited_example =
    for_each_code-Visited awake collect cellar [] cellar_Distinct cellar_OwnId
