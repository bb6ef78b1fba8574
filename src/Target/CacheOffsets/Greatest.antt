-- ===== src/Target/CacheOffsets/Greatest.antt =====
-- The offset that the cache's frontier shows for a partition is the greatest of the documents' ones.
use mathlib.Core.Path.{subst}
use kube_data_guard.Common.{
  ◌≡◌, suc, Has-map, refl, sym, ap, ◌∙◌, Option, none, some, String, List, [], ◌∷◌, map, All, Has,
  here, there,
}
use kube_data_guard.Common.Int.{ℤ}
use kube_data_guard.Python.{Outcome, ok, >>=-eq-ok, Value, value_text, to_int, Row}
use kube_data_guard.Events.Range.{AtMost}
use kube_data_guard.Frontier.{AppliedOffset, TargetFrontier}
use kube_data_guard.Target.CacheOffsets.{
  AppliedPosition, Offsets, none_applied, record_offset, given_value, record_given, record_position,
  record_document, record_documents, listed_offset, frontier_of, cache_offset_frontier,
}
use kube_data_guard.Target.CacheOffsets.Reaches.{
  Reaches, Reaches-record_offset, Reaches-kept, Attains, Attains-record_offset,
}

-- The document was stored for an event at that offset of that partition.
pub record Carries (d : Row) (t : String) (p o : ℤ) : Type 0 where
  pub topic : Value
  pub partition : Value
  pub offset : Value
  pub has_topic : given_value "dataguard_topic" d ≡ some topic
  pub has_partition : given_value "dataguard_partition" d ≡ some partition
  pub has_offset : given_value "dataguard_offset" d ≡ some offset
  pub topic_text : value_text topic ≡ t
  pub partition_number : to_int partition ≡ ok p
  pub offset_number : to_int offset ≡ ok o

-- What a document does to the offsets: nothing, or it is carried by the document.
data Change (d : Option Row) (s s' : Offsets) : Type 0 where
  unchanged : s'.offsets ≡ s.offsets → Change d s s'
  recorded :
      (row : Row) (t : String) (p o : ℤ)
      → d ≡ some row
      → Carries row t p o
      → s'.offsets ≡ record_offset t p o s.offsets
      → Change d s s'

unchanged_offsets :
    (d : Option Row) (s s' : Offsets) → ◌≡◌ {A = Outcome Offsets} (ok s) (ok s') → Change d s s'
unchanged_offsets d s s' e =
    let same : s' ≡ s = cc in unchanged (ap (λ (x : Offsets). x.offsets) same)

recorded_offsets :
    (topic partition offset : Value) (p o : ℤ) (s s' : Offsets)
    → to_int partition ≡ ok p
    → to_int offset ≡ ok o
    → record_position topic partition offset s ≡ ok s'
    → s'.offsets ≡ record_offset (value_text topic) p o s.offsets
unfolding record_position
recorded_offsets topic partition offset p o s s' a b e =
    let items = record_offset (value_text topic) p o s.offsets in
    let made : ◌≡◌ {A = Outcome Offsets} (ok (record { offsets = items; count = suc s.count }))
        (ok s') =
      rw (a, b) at e in
    let same : s' ≡ record { offsets = items; count = suc s.count } = cc in
    ap (λ (x : Offsets). x.offsets) same

record_given-Change :
    (row : Row) (a b c : Option Value) (s s' : Offsets)
    → given_value "dataguard_topic" row ≡ a
    → given_value "dataguard_partition" row ≡ b
    → given_value "dataguard_offset" row ≡ c
    → record_given a b c s ≡ ok s'
    → Change (some row) s s'
unfolding record_given record_position
record_given-Change row (some topic) (some partition) (some offset) s s' a b c e =
    let (p, read_p, e') = >>=-eq-ok (to_int partition) _ e in
    let (o, read_o, e'') = >>=-eq-ok (to_int offset) _ e' in
    recorded row (value_text topic) p o refl
      (record {
        topic = topic;
        partition = partition;
        offset = offset;
        has_topic = a;
        has_partition = b;
        has_offset = c;
        topic_text = refl;
        partition_number = read_p;
        offset_number = read_o;
      })
      (recorded_offsets topic partition offset p o s s' read_p read_o e)
record_given-Change row none b c s s' _ _ _ e = unchanged_offsets (some row) s s' e
record_given-Change row (some topic) none c s s' _ _ _ e = unchanged_offsets (some row) s s' e
record_given-Change row (some topic) (some partition) none s s' _ _ _ e =
    unchanged_offsets (some row) s s' e

record_document-Change :
    (d : Option Row) (s s' : Offsets) → record_document d s ≡ ok s' → Change d s s'
unfolding record_document
record_document-Change none s s' e = unchanged_offsets none s s' e
record_document-Change (some row) s s' e =
    record_given-Change row (given_value "dataguard_topic" row)
      (given_value "dataguard_partition" row) (given_value "dataguard_offset" row) s s' refl refl
      refl e

Change-Reaches :
    (t : String) (p o : ℤ) (d : Option Row) (s s' : Offsets)
    → Change d s s'
    → Reaches t p o s.offsets
    → Reaches t p o s'.offsets
Change-Reaches t p o d s s' (unchanged e) r = subst (Reaches t p o) (sym e) r
Change-Reaches t p o d s s' (recorded row t' p' o' _ c e) r =
    subst (Reaches t p o) (sym e) (Reaches-kept t p o t' p' o' s.offsets r)

record_document-Reaches :
    (row : Row) (t : String) (p o : ℤ) (s s' : Offsets)
    → Carries row t p o
    → record_document (some row) s ≡ ok s'
    → Reaches t p o s'.offsets
unfolding record_document record_given
record_document-Reaches row t p o s s' c e =
    let given : record_position c.topic c.partition c.offset s ≡ ok s' =
      rw (c.has_topic, c.has_partition, c.has_offset) at e in
    let added : s'.offsets ≡ record_offset t p o s.offsets =
      recorded_offsets c.topic c.partition c.offset p o s s' c.partition_number c.offset_number
        given
      ∙ ap (λ x. record_offset x p o s.offsets) c.topic_text in
    subst (Reaches t p o) (sym added) (Reaches-record_offset t p o s.offsets)

record_documents-kept :
    (t : String) (p o : ℤ) (ds : List (Option Row)) (s s' : Offsets)
    → record_documents ds s ≡ ok s'
    → Reaches t p o s.offsets
    → Reaches t p o s'.offsets
unfolding record_documents
record_documents-kept t p o [] s s' e r =
    let same : s ≡ s' = cc in subst (λ (x : Offsets). Reaches t p o x.offsets) same r
record_documents-kept t p o (d ∷ ds) s s' e r =
    let (s1, q, e') = >>=-eq-ok (record_document d s) (record_documents ds) e in
    record_documents-kept t p o ds s1 s' e'
      (Change-Reaches t p o d s s1 (record_document-Change d s s1 q) r)

record_documents-Reaches :
    (row : Row) (t : String) (p o : ℤ) (ds : List (Option Row)) (s s' : Offsets)
    → Has (some row) ds
    → Carries row t p o
    → record_documents ds s ≡ ok s'
    → Reaches t p o s'.offsets
unfolding record_documents
record_documents-Reaches row t p o [] s s' h c e = elim h [ ]
record_documents-Reaches row t p o (d ∷ ds) s s' (here same) c e =
    let (s1, q, e') = >>=-eq-ok (record_document d s) (record_documents ds) e in
    record_documents-kept t p o ds s1 s' e'
      (record_document-Reaches row t p o s s1 c (ap (λ x. record_document x s) same ∙ q))
record_documents-Reaches row t p o (d ∷ ds) s s' (there h) c e =
    let (s1, q, e') = >>=-eq-ok (record_document d s) (record_documents ds) e in
    record_documents-Reaches row t p o ds s1 s' h c e'

-- Some document of those carries the position.
abbrev pub Stored : List (Option Row) → String → ℤ → ℤ → Type 0
Stored ds t p o = (row : Row) × Has (some row) ds × Carries row t p o

Change-Attains :
    (all_documents : List (Option Row)) (d : Option Row) (s s' : Offsets)
    → Has d all_documents
    → Change d s s'
    → All (Attains (Stored all_documents)) s.offsets
    → All (Attains (Stored all_documents)) s'.offsets
Change-Attains ds d s s' h (unchanged e) r = subst (All (Attains (Stored ds))) (sym e) r
Change-Attains ds d s s' h (recorded row t p o same c e) r =
    subst (All (Attains (Stored ds))) (sym e)
      (Attains-record_offset (Stored ds) t p o s.offsets (row, subst (λ x. Has x ds) same h, c) r)

record_documents-Attains :
    (all_documents ds : List (Option Row)) (s s' : Offsets)
    → ((d : Option Row) → Has d ds → Has d all_documents)
    → record_documents ds s ≡ ok s'
    → All (Attains (Stored all_documents)) s.offsets
    → All (Attains (Stored all_documents)) s'.offsets
unfolding record_documents
record_documents-Attains all_documents [] s s' among e r =
    let same : s ≡ s' = cc in
    subst (λ (x : Offsets). All (Attains (Stored all_documents)) x.offsets) same r
record_documents-Attains all_documents (d ∷ ds) s s' among e r =
    let (s1, q, e') = >>=-eq-ok (record_document d s) (record_documents ds) e in
    record_documents-Attains all_documents ds s1 s' (λ x h. among x (there h)) e'
      (Change-Attains all_documents d s s1 (among d (here refl)) (record_document-Change d s s1 q)
        r)

-- The position that the frontier lists, with the offset that it shows for the partition.
abbrev pub listed_as : String → ℤ → ℤ → AppliedOffset
listed_as t p m = record { topic = some t; partition = some p; max_applied_offset = some m }

-- A listed partition shows an offset that some document carries.
abbrev pub IsAttained : List (Option Row) → AppliedOffset → Type 0
IsAttained ds x = (t : String) × (p : ℤ) × (m : ℤ) × (x ≡ listed_as t p m) × Stored ds t p m

listed-IsAttained :
    (ds : List (Option Row)) (items : List AppliedPosition)
    → All (Attains (Stored ds)) items
    → All (IsAttained ds) (map listed_offset items)
listed-IsAttained ds [] h = tt
listed-IsAttained ds (a ∷ items) ((m, shown, stored), h) = (
  (
    a.topic,
    a.partition,
    m,
    ap (λ o. record { topic = some a.topic; partition = some a.partition; max_applied_offset = o })
        shown,
    stored,
  ),
  listed-IsAttained ds items h,
)

-- Where the frontier of the cache is returned, and one of the documents has a position, the frontier lists
-- for its partition an offset that is no less than the document's, and each offset that it lists is one
-- that some document carries for that partition.
pub cache_offset_frontier-greatest :
    (order_cache_prefix : String) (documents : List (Option Row)) (f : TargetFrontier) (row : Row)
    (t : String) (p o : ℤ)
    → cache_offset_frontier order_cache_prefix documents ≡ ok f
    → Has (some row) documents
    → Carries row t p o
    → ((m : ℤ) × Has (listed_as t p m) f.applied_offsets × AtMost o m)
      × All (IsAttained documents) f.applied_offsets
unfolding cache_offset_frontier
cache_offset_frontier-greatest prefix ds f row t p o e h c =
    let (s, q, e') =
      >>=-eq-ok (record_documents ds none_applied) (λ s. ok (frontier_of prefix s)) e in
    let same : frontier_of prefix s ≡ f = cc in
    let r = record_documents-Reaches row t p o ds none_applied s h c q in
    let listed : listed_offset r.item ≡ listed_as t p r.most =
      cc (r.same_topic, r.same_partition, r.shown) in
    subst
      (λ (g : TargetFrontier).
        ((m : ℤ) × Has (listed_as t p m) g.applied_offsets × AtMost o m)
        × All (IsAttained ds) g.applied_offsets)
      same
      (
        (
          r.most,
          subst (λ x. Has x (map listed_offset s.offsets)) listed
              (Has-map listed_offset s.offsets r.listed),
          r.reached,
        ),
        listed-IsAttained ds s.offsets
            (record_documents-Attains ds ds none_applied s (λ x k. k) q tt),
      )
