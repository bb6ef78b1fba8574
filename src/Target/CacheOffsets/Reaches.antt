-- ===== src/Target/CacheOffsets/Reaches.antt =====
-- What a document's position does to the offsets listed for the partitions.
use mathlib.Core.Path.{subst}
use kube_data_guard.Common.{
  ◌≡◌, refl, sym, ap, ◌∙◌, ◌==◌, eq_iff, inl, inr, true, false, Option, none, some, String, List,
  [], ◌∷◌, All, Has, here, there, Bool-cases, if◌then◌else◌, arith,
}
use kube_data_guard.Common.Int.{ℤ, ltb_ℤ, eqb_ℤ, eqb_ℤ_iff}
use kube_data_guard.Events.Range.{AtMost, AtMost-refl, AtMost-trans}
use kube_data_guard.Target.CacheOffsets.{
  AppliedPosition, greater_offset, apply_offset, is_key, record_offset,
}

-- A partition that shows an offset no less than that one.
pub record Reaches (t : String) (p o : ℤ) (items : List AppliedPosition) : Type 0 where
  pub item : AppliedPosition
  pub listed : Has item items
  pub same_topic : item.topic ≡ t
  pub same_partition : item.partition ≡ p
  pub most : ℤ
  pub shown : item.max_applied_offset ≡ some most
  pub reached : AtMost o most

is_key-same :
    (t : String) (p : ℤ) (a : AppliedPosition)
    → is_key t p a ≡ true
    → (a.topic ≡ t) × (a.partition ≡ p)
is_key-same t p a e = elim (Bool-cases (a.topic == t)) [
  | inl s ↦
      let q : eqb_ℤ a.partition p ≡ true = rw s at e in
      ((eq_iff a.topic t).0 s, (eqb_ℤ_iff a.partition p).0 q)
  | inr s ↦ absurd (cc (rw s at e))
]

greater_offset-AtMost : (o : ℤ) (most : Option ℤ) → AtMost o (greater_offset o most)
greater_offset-AtMost o none = AtMost-refl o
greater_offset-AtMost o (some m) = ground arith

greater_offset-grown :
    (o m : ℤ) (most : Option ℤ) → most ≡ some m → AtMost m (greater_offset o most)
greater_offset-grown o m none e = absurd (cc e)
greater_offset-grown o m (some n) e = let same : n ≡ m = cc in ground (arith, same)

Reaches-grown :
    (t : String) (p o : ℤ) (a : AppliedPosition) (items : List AppliedPosition)
    → Reaches t p o items
    → Reaches t p o (a ∷ items)
Reaches-grown t p o a items r = record {
  item = r.item;
  listed = there r.listed;
  same_topic = r.same_topic;
  same_partition = r.same_partition;
  most = r.most;
  shown = r.shown;
  reached = r.reached;
}

pub Reaches-record_offset :
    (t : String) (p o : ℤ) (items : List AppliedPosition)
    → Reaches t p o (record_offset t p o items)
unfolding record_offset
Reaches-record_offset t p o [] = record {
  item =
      apply_offset o
        (record { topic = t; partition = p; event_count = 0; max_applied_offset = none });
  listed = here {xs = []} refl;
  same_topic = refl;
  same_partition = refl;
  most = o;
  shown = refl;
  reached = AtMost-refl o;
}
Reaches-record_offset t p o (a ∷ items) = elim (Bool-cases (is_key t p a)) [
  | inl e ↦
      let (same_topic, same_partition) = is_key-same t p a e in
      rw (record_offset, e)
        (record {
          item = apply_offset o a;
          listed = here refl;
          same_topic = same_topic;
          same_partition = same_partition;
          most = greater_offset o a.max_applied_offset;
          shown = refl;
          reached = greater_offset-AtMost o a.max_applied_offset;
        })
  | inr e ↦ rw (record_offset, e) (Reaches-grown t p o a _ (Reaches-record_offset t p o items))
]

-- What another document adds does not take it away.
kept_from :
    (t : String) (p o : ℤ) (t' : String) (p' o' : ℤ) (a x : AppliedPosition)
    (items : List AppliedPosition)
    → Has x (a ∷ items)
    → x.topic ≡ t
    → x.partition ≡ p
    → (m : ℤ) → x.max_applied_offset ≡ some m
    → AtMost o m
    → (Reaches t p o items → Reaches t p o (record_offset t' p' o' items))
    → Reaches t p o (record_offset t' p' o' (a ∷ items))
unfolding record_offset
kept_from t p o t' p' o' a x items (here e) st sp m shown reached next =
    elim (Bool-cases (is_key t' p' a)) [
      | inl k ↦
          rw (record_offset, k)
            (record {
              item = apply_offset o' a;
              listed = here refl;
              same_topic = ap (λ (y : AppliedPosition). y.topic) (sym e) ∙ st;
              same_partition = ap (λ (y : AppliedPosition). y.partition) (sym e) ∙ sp;
              most = greater_offset o' a.max_applied_offset;
              shown = refl;
              reached = AtMost-trans o m (greater_offset o' a.max_applied_offset) reached (
                  greater_offset-grown o' m a.max_applied_offset
                    (ap (λ (y : AppliedPosition). y.max_applied_offset) (sym e) ∙ shown));
            })
      | inr k ↦
          rw (record_offset, k)
            (record {
              item = x;
              listed = here e;
              same_topic = st;
              same_partition = sp;
              most = m;
              shown = shown;
              reached = reached;
            })
    ]
kept_from t p o t' p' o' a x items (there h) st sp m shown reached next =
    let r : Reaches t p o items = record {
      item = x;
      listed = h;
      same_topic = st;
      same_partition = sp;
      most = m;
      shown = shown;
      reached = reached;
    } in
    elim (Bool-cases (is_key t' p' a)) [
      | inl k ↦ rw (record_offset, k) (Reaches-grown t p o (apply_offset o' a) items r)
      | inr k ↦
          rw (record_offset, k) (Reaches-grown t p o a (record_offset t' p' o' items) (next r))
    ]

pub Reaches-kept :
    (t : String) (p o : ℤ) (t' : String) (p' o' : ℤ) (items : List AppliedPosition)
    → Reaches t p o items
    → Reaches t p o (record_offset t' p' o' items)
Reaches-kept t p o t' p' o' [] r = absurd (elim r.listed [ ])
Reaches-kept t p o t' p' o' (a ∷ items) r =
    kept_from t p o t' p' o' a r.item items r.listed r.same_topic r.same_partition r.most r.shown
      r.reached (Reaches-kept t p o t' p' o' items)

-- A partition that shows an offset of which P holds.
abbrev pub Attains : (String → ℤ → ℤ → Type 0) → AppliedPosition → Type 0
Attains P a = (m : ℤ) × (a.max_applied_offset ≡ some m) × P a.topic a.partition m

greater_offset-either :
    (Q : ℤ → Type 0) (o : ℤ) (most : Option ℤ) (m : ℤ)
    → most ≡ some m
    → Q m
    → Q o
    → Q (greater_offset o most)
greater_offset-either Q o none m e q r = r
greater_offset-either Q o (some n) m e q r =
    let same : m ≡ n = cc in
    elim (ltb_ℤ n o) as (λ b. Q (if b then o else n)) [ true ↦ r | false ↦ subst Q same q ]

pub Attains-record_offset :
    (P : String → ℤ → ℤ → Type 0) (t : String) (p o : ℤ) (items : List AppliedPosition)
    → P t p o
    → All (Attains P) items
    → All (Attains P) (record_offset t p o items)
unfolding record_offset
Attains-record_offset P t p o [] h as' = ((o, refl, h), tt)
Attains-record_offset P t p o (a ∷ items) h ((m, shown, holds), rest) =
    elim (Bool-cases (is_key t p a)) [
      | inl e ↦
          let (st, sp) = is_key-same t p a e in
          let new : P a.topic a.partition o =
            subst (λ u. P u a.partition o) (sym st) (subst (λ q. P t q o) (sym sp) h) in
          rw (record_offset, e)
            (
              (
                greater_offset o a.max_applied_offset,
                refl,
                greater_offset-either (P a.topic a.partition) o a.max_applied_offset m shown holds
                    new,
              ),
              rest,
            )
      | inr e ↦
          rw (record_offset, e) ((m, shown, holds), Attains-record_offset P t p o items h rest)
    ]
