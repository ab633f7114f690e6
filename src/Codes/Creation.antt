-- ===== src/Codes/Creation.antt =====
-- Create leads from a sound state of the service to a sound one.
use mathlib.Core.Path.{subst}
use qurator.Common.{
  ◌≡◌, ◌⊎◌, refl, ap, sym, ◌∙◌, inl, inr, ℕ, zero, suc, false, [], ◌∷◌, Text, Dict, bytes,
  lookup-insert, to_lower, trim_space, text_eq, Option-cases, Bool-cases, Result-cases, Result, ok,
  err, ◌==◌, if◌then◌else◌, trim_space-to_lower, arith,
}
use qurator.Domain.{Time, Code, CodeMode}
use qurator.Domain.Ids.{new_code_id}
use qurator.Shortcode.Namespace.{trim_space-normalize_alias, trim_space-generate}
use qurator.Store.State.{MemStore, has, Ctx, live, done, StoreError, alias_taken}
use qurator.Store.Codes.{
  nothing_seen, check_row, check_rows, persisted, store_row, persist_rows, store_rows, reflect_rows,
  create_codes, create_code,
}
use qurator.Store.Invariant.{Inv}
use qurator.Store.Invariant.Create.{Fresh}
use qurator.Store.Invariant.Batch.{Agrees-nothing_seen, check_row-Fresh, create_codes-Inv}
use qurator.Codes.Destination.{Service, validate_destination}
use qurator.Codes.Prepare.{
  CodesError, from_store, CreateInput, Prepared, checked_mode, with_alias, prepare_mode, prepare,
  prepared_styling,
}
use qurator.Codes.World.{
  Env, CacheLaws, World, Blob, cache_key, invalidate, materialise, put_image, content_of,
}
use qurator.Codes.Create.{
  Chance, generate_attempts, retries, chosen, final_error, insert_row, create_loop, create,
}
use qurator.Codes.Answers.{answer-store_row}
use qurator.Codes.Coherence.{Sound, coherent_after}

-- CreateCode fails and changes nothing, or it stores the row that it returns, under a new id.
pub create_code-cases :
    (ctx : Ctx) (now : Time) (rand : ℕ → ℕ) (c : Code) (m : MemStore)
    → ((x : StoreError) × (create_code ctx now rand c m ≡ (err x, m)))
      ⊎ ((has c.id m.codes ≡ false)
          × (create_code ctx now rand c m ≡ (
            ok (record (persisted now rand c) { deleted_at = c.deleted_at }),
            store_row now m (persisted now rand c),
          )))
unfolding create_code create_codes check_rows persist_rows store_rows reflect_rows
create_code-cases done now rand c m = inl (_, refl)
create_code-cases live now rand c m = elim (Result-cases (check_row m nothing_seen c)) [
  | inl (x, p) ↦ inl (x, ground arith)
  | inr (s', p) ↦
      let fresh : Fresh m (persisted now rand c) =
        check_row-Fresh now rand (Agrees-nothing_seen m) c p in
      inr (unfold persisted in fresh.id, ground arith)
]

pub create_code-Inv :
    {m : MemStore} (h : Inv m) (ctx : Ctx) (now : Time) (rand : ℕ → ℕ) (c : Code)
    → Inv (create_code ctx now rand c m).1
unfolding create_code
create_code-Inv h ctx now rand c = create_codes-Inv h ctx now (λ i. rand) (c ∷ [])

pub chosen-trimmed :
    (p : Prepared) (d : Chance)
    → trim_space p.short_code ≡ p.short_code
    → trim_space (chosen p d) ≡ chosen p d
chosen-trimmed p d t = ground (arith, trim_space-generate d.code_bytes)

with_alias-trimmed :
    (alias : Text) (p p' : Prepared)
    → trim_space p.short_code ≡ p.short_code
    → with_alias alias p ≡ ok p'
    → trim_space p'.short_code ≡ p'.short_code
unfolding with_alias
with_alias-trimmed alias p p' t h = ground (arith, trim_space-normalize_alias alias)

prepare_mode-trimmed :
    (sv : Service) (input : CreateInput) (mode : CodeMode) (p : Prepared)
    → prepare_mode sv input mode ≡ ok p
    → trim_space p.short_code ≡ p.short_code
unfolding prepare_mode
prepare_mode-trimmed sv input mode p h =
    elim (Option-cases (validate_destination sv input.destination)) [
      | inr (x, v) ↦ absurd (ground arith)
      | inl v ↦
          with_alias-trimmed input.alias
            (record {
              mode = mode;
              destination = trim_space input.destination;
              styling = prepared_styling input;
              is_alias = false;
              short_code = bytes "";
              logo = input.logo;
              auto_raise = input.logo_auto_raise;
              client_ref = input.client_ref;
            })
            p (unfold trim_space in refl) (ground arith)
    ]

pub prepare-trimmed :
    (sv : Service) (input : CreateInput) (p : Prepared)
    → prepare sv input ≡ ok p
    → trim_space p.short_code ≡ p.short_code
unfolding prepare
prepare-trimmed sv input p h = elim (Option-cases (checked_mode input.mode)) [
  | inl n ↦ absurd (ground arith)
  | inr (mode, q) ↦ prepare_mode-trimmed sv input mode p (ground arith)
]

module _ {C : Type 0} (e : Env C) where
  -- what a rendered row has of the arguments
  pub materialise-row :
      (sv : Service) (now : Time) (user id sc : Text) (p : Prepared) (b : Dict Text Blob) (c : Code)
      → (materialise e sv now user id sc p b).0 ≡ ok c
      → c.short_code ≡ sc
  unfolding materialise put_image
  materialise-row sv now user id sc p b c h =
      elim (Option-cases (e.render (content_of sv sc p) p.styling p.logo p.auto_raise)) [
        | inl n ↦ absurd (ground arith)
        | inr (r, q) ↦ ground arith
      ]

module _ {C : Type 0} (e : Env C) (laws : CacheLaws e) {w : World C} (s : Sound e w) where
  -- a new row whose short code has no white space at an end
  pub stored-Sound :
      (now : Time) (c : Code) (x : Text)
      → has c.id w.store.codes ≡ false
      → trim_space c.short_code ≡ c.short_code
      → cache_key x ≡ c.short_code
      → Inv (store_row now w.store c)
      → Sound e (invalidate e x (record w { store = store_row now w.store c }))
  unfolding store_row
  stored-Sound now c x fresh t key inv = record {
    inv = inv;
    trimmed = λ j d at. elim (Bool-cases (c.id == j)) [
      | inl q ↦
          let f : c ≡ d = ground (arith, lookup-insert j c.id c w.store.codes) in
          subst (λ (y : Code). trim_space y.short_code ≡ y.short_code) f t
      | inr f ↦ s.trimmed j d (ground (arith, lookup-insert j c.id c w.store.codes))
    ];
    coherent = λ k r.
        coherent_after e laws s (store_row now w.store c) x c.short_code k r key
          (λ j. answer-store_row s.inv now c j fresh);
  }

  -- the blobs do not matter
  pub reblobbed-Sound : (b : Dict Text Blob) → Sound e (record w { blobs = b })
  reblobbed-Sound b = record { inv = s.inv; trimmed = s.trimmed; coherent = s.coherent }

  inserted-Sound :
      (ctx : Ctx) (d : Chance) (p : Prepared) (sc : Text) (c : Code)
      (again : CodesError → World C → Result CodesError Code × World C)
      → c.short_code ≡ sc
      → trim_space sc ≡ sc
      → ((x : CodesError) (w' : World C) → Sound e w' → Sound e (again x w').1)
      → Sound e (insert_row e ctx d p sc c w again).1
  unfolding insert_row
  inserted-Sound ctx d p sc c again n t next =
      elim (create_code-cases ctx d.stored_at d.styling_bytes c w.store) [
        | inl (x, q) ↦
            let r0 : (create_code ctx d.stored_at d.styling_bytes c w.store).0 ≡ err x =
              ap (λ y. y.0) q in
            let m0 : (create_code ctx d.stored_at d.styling_bytes c w.store).1 ≡ w.store =
              ap (λ y. y.1) q in
            elim (Bool-cases (retries p x)) [
              | inl r ↦ rw (r0, r, m0, insert_row) (next (final_error p sc x) _ (reblobbed-Sound _))
              | inr r ↦ rw (r0, r, m0, insert_row) (reblobbed-Sound _)
            ]
        | inr (fresh, q) ↦
            let c' : Code = persisted d.stored_at d.styling_bytes c in
            let r0 : (create_code ctx d.stored_at d.styling_bytes c w.store).0
                ≡ ok (record c' { deleted_at = c.deleted_at }) =
              ap (λ y. y.0) q in
            let m0 : (create_code ctx d.stored_at d.styling_bytes c w.store).1
                ≡ store_row d.stored_at w.store c' =
              ap (λ y. y.1) q in
            let lowered : c'.short_code ≡ to_lower sc = unfold persisted in ap to_lower n in
            rw (r0, m0, insert_row)
              (stored-Sound d.stored_at c' sc (unfold persisted in fresh)
                (rw lowered (trim_space-to_lower sc ∙ ap to_lower t))
                (unfold cache_key in ap to_lower t ∙ sym lowered)
                (subst (λ (m : MemStore). Inv m) m0
                  (create_code-Inv s.inv ctx d.stored_at d.styling_bytes c)))
      ]

module _ {C : Type 0} (e : Env C) (laws : CacheLaws e) where
  create_loop-Sound :
      (n : ℕ) (sv : Service) (ctx : Ctx) (dice : ℕ → Chance) (user : Text) (p : Prepared)
      (last : CodesError) {w : World C}
      → trim_space p.short_code ≡ p.short_code
      → Sound e w
      → Sound e (create_loop e n sv ctx dice user p last w).1
  unfolding create_loop
  create_loop-Sound zero sv ctx dice user p last t s = s
  create_loop-Sound (suc n) sv ctx dice user p last {w} t s =
      let sc : Text = chosen p (dice 0) in
      let made : Result CodesError Code × Dict Text Blob =
        materialise e sv (dice 0).at user (new_code_id (dice 0).id_bytes) sc p w.blobs in
      elim (Result-cases made.0) [
        | inl (x, q) ↦ rw (q, create_loop) (reblobbed-Sound e laws s made.1)
        | inr (c, q) ↦
            rw (q, create_loop)
              (inserted-Sound e laws (reblobbed-Sound e laws s made.1) ctx (dice 0) p sc c
                (λ x w'. create_loop e n sv ctx (λ i. dice (suc i)) user p x w')
                (materialise-row e sv (dice 0).at user (new_code_id (dice 0).id_bytes) sc p w.blobs
                  c q)
                (chosen-trimmed p (dice 0) t)
                (λ x w' s'. create_loop-Sound n sv ctx (λ i. dice (suc i)) user p x t s'))
      ]

  -- Create, whether it fails or not
  pub create-Sound :
      (sv : Service) (ctx : Ctx) (dice : ℕ → Chance) (input : CreateInput) {w : World C}
      → Sound e w
      → Sound e (create e sv ctx dice input w).1
  unfolding create
  create-Sound sv ctx dice input {w} s = elim (Result-cases (prepare sv input)) [
    | inl (x, q) ↦ rw (q, create) s
    | inr (p, q) ↦
        rw (q, create)
          (create_loop-Sound (if p.is_alias then 1 else generate_attempts) sv ctx dice input.user_id
            p (from_store alias_taken) (prepare-trimmed sv input p q) s)
  ]
