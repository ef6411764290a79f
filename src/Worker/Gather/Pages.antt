-- ===== src/Worker/Gather/Pages.antt =====
-- The pages of the logs: how many are read, and that no record is kept twice.
use incident_desk.Prelude.{
  Bool-cases, Exec, List, NoRepeats, Option, String, Yields, Yields-map, Yields-ok, [], ap, arith,
  contains, contains-append, continue-Yields, false, inl, inr, map, nat_eq, none, not, ok, refl,
  some, string_eq, suc, true, zero, ℕ, ◌&&◌, ◌++◌, ◌+◌, ◌<◌, ◌==◌, ◌∷◌, ◌≡◌, ◌≤◌,
}
use incident_desk.Worker.Contracts.{PlanStep, Source, object_eq, source_eq}
use incident_desk.Worker.Gather.{extended, fresh, more_pages, on_cursor}
use incident_desk.Worker.Gather.Base.{Tools, has_next}
use incident_desk.Worker.Session.{Page, SourceRow}

abbrev pub row_ids : List SourceRow → List String
row_ids = map (λ (r : SourceRow). r.id)

contains-fresh :
    (a : String) (known more : List SourceRow)
    → contains a (row_ids (fresh known more))
      ≡ (not (contains a (row_ids known)) && contains a (row_ids more))
unfolding fresh
contains-fresh a known [] = ground arith
contains-fresh a known (r ∷ rs) = elim (Bool-cases (contains r.id (row_ids known))) [
  | inl old ↦ rw old (ground (arith, contains-fresh a known rs, string_eq.beq_iff a r.id))
  | inr new ↦ rw new (ground (arith, contains-fresh a known rs, string_eq.beq_iff a r.id))
]

NoRepeats-fresh :
    (known more : List SourceRow)
    → NoRepeats (row_ids more)
    → NoRepeats (row_ids (fresh known more))
unfolding fresh
NoRepeats-fresh known [] h = tt
NoRepeats-fresh known (r ∷ rs) h = elim (Bool-cases (contains r.id (row_ids known))) [
  | inl old ↦ rw old (NoRepeats-fresh known rs h.1)
  | inr new ↦ rw new (ground (arith, contains-fresh r.id known rs), NoRepeats-fresh known rs h.1)
]

NoRepeats-append :
    (xs ys : List String)
    → NoRepeats xs
    → NoRepeats ys
    → ((a : String) → contains a ys ≡ true → contains a xs ≡ false)
    → NoRepeats (xs ++ ys)
NoRepeats-append [] ys h k d = k
NoRepeats-append (x ∷ xs) ys h k d = (
  ground (arith, contains-append x xs ys, d x, string_eq.beq_iff x x),
  NoRepeats-append xs ys h.1 k (λ a m. ground (arith, d a m)),
)

row_ids-append : (xs ys : List SourceRow) → row_ids (xs ++ ys) ≡ row_ids xs ++ row_ids ys
row_ids-append [] ys = refl
row_ids-append (x ∷ xs) ys = rw (row_ids-append xs ys)

NoRepeats-extended :
    (out more : Page)
    → NoRepeats (row_ids out.records)
    → NoRepeats (row_ids more.records)
    → NoRepeats (row_ids (out.records ++ fresh out.records more.records))
NoRepeats-extended out more h k = rw (row_ids-append out.records (fresh out.records more.records)) (
    NoRepeats-append (row_ids out.records) _ h (NoRepeats-fresh out.records more.records k)
      λ a m. ground (arith, contains-fresh a out.records more.records))

module _ {S : Type 0} (t : Tools S) where
  -- No page of the runtime names a record twice.
  unfoldable pub PagesAreSets : Type 0
  PagesAreSets =
      (src : Source) (step : PlanStep) (cursor : Option String) (s : S)
      → Yields (λ (p : Page). NoRepeats (row_ids p.records)) (t.query src step cursor s).0

  -- What the loop makes of a page that it starts with: between `pages` and `pages + left` pages
  -- were read, fewer than that only because there was no next one, and no id stands twice.
  pub record IsPaged (left pages : ℕ) (r : Page × ℕ) : Type 0 where
    pub at_least : pages ≤ r.1
    pub at_most : r.1 ≤ pages + left
    pub exhausted : r.1 < pages + left → has_next r.0.next_cursor ≡ false
    pub once : NoRepeats (row_ids r.0.records)

  stopped :
      (left pages : ℕ) (out : Page)
      → has_next out.next_cursor ≡ false
      → NoRepeats (row_ids out.records)
      → IsPaged left pages (out, pages)
  stopped left pages out last h = record {
    at_least = omega arith;
    at_most = omega arith;
    exhausted = λ _. last;
    once = h;
  }

  one_more :
      (left pages : ℕ) (r : Page × ℕ) → IsPaged left (pages + 1) r → IsPaged (suc left) pages r
  one_more left pages r p = record {
    at_least = omega (arith, p.at_least);
    at_most = omega (arith, p.at_most);
    exhausted = λ h. p.exhausted (omega arith);
    once = p.once;
  }

  on_cursor-Yields :
      {A : Type 0} (P : A → Type 0) (o : Option String) (done : Exec S A) (go : String → Exec S A)
      (s : S)
      → (has_next o ≡ false → Yields P (done s).0)
      → ((cursor : String) → Yields P (go cursor s).0)
      → Yields P (on_cursor t o done go s).0
  on_cursor-Yields P none done go s h k = h refl
  on_cursor-Yields P (some cursor) done go s h k = elim (Bool-cases (cursor == "")) [
    | inl blank ↦ rw blank (h (rw blank refl))
    | inr there ↦ rw there (k cursor)
  ]

  more_pages-IsPaged :
      (sets : PagesAreSets) (left : ℕ) (step : PlanStep) (out : Page) (pages : ℕ) (s : S)
      → NoRepeats (row_ids out.records)
      → Yields (IsPaged left pages) (more_pages t left step out pages s).0
  unfolding more_pages PagesAreSets
  more_pages-IsPaged sets zero step out pages s h = record {
    at_least = omega arith;
    at_most = omega arith;
    exhausted = λ k. ground arith;
    once = h;
  }
  more_pages-IsPaged sets (suc left) step out pages s h =
      on_cursor-Yields (IsPaged (suc left) pages) out.next_cursor _ _ s
        (λ last. stopped (suc left) pages out last h)
        λ cursor.
          continue-Yields (IsPaged (suc left) pages) (t.query step.source step (some cursor) s).0
            (λ more. more_pages t left step (extended out more) (pages + 1))
            (t.query step.source step (some cursor) s).1
            λ more q.
              Yields-map (IsPaged left (pages + 1)) (IsPaged (suc left) pages) _
                (one_more left pages)
                (more_pages-IsPaged sets left step (extended out more) (pages + 1) _ (
                  NoRepeats-extended out more h (
                    Yields-ok _ (t.query step.source step (some cursor) s).0 q
                      (sets step.source step (some cursor) s))))

  pub more_pages_bound :
      (sets : PagesAreSets) (step : PlanStep) (first : Page) (s s' : S) (out : Page) (pages : ℕ)
      → NoRepeats (row_ids first.records)
      → more_pages t 2 step first 1 s ≡ (ok (out, pages), s')
      → IsPaged 2 1 (out, pages)
  more_pages_bound sets step first s s' out pages h e =
      Yields-ok (IsPaged 2 1) _ (ap (λ p. p.0) e) (more_pages-IsPaged sets 2 step first 1 s h)
