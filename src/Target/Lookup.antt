-- ===== src/Target/Lookup.antt =====
-- A lookup finds the document of every order asked for.
use kube_data_guard.Common.{
  ◌≡◌, refl, sym, ap, ◌∙◌, ◌==◌, eq_iff, eq_refl, arith, inl, inr, Bool, true, false, Option, none,
  some, String, List, [], ◌∷◌, map, Has, here, there, Bool-cases, if◌then◌else◌,
}
use mathlib.Core.Option
use kube_data_guard.Python.{Value, value_text, Dict, Row, get, get-put}
use kube_data_guard.Target.{Store, put_found, mget_from, mget_orders}

not_equal : (a b : String) → (a ≡ b → ⊥) → (a == b) ≡ false
not_equal a b n = elim (Bool-cases (a == b)) [ inl e ↦ absurd (n ((eq_iff a b).0 e)) | inr e ↦ e ]

Has-later :
    {k : String} (x : String) (xs : List String) → (x == k) ≡ false → Has k (x ∷ xs) → Has k xs
Has-later {k} x xs n (here q) = ground (arith, eq_iff x k, q)
Has-later x xs n (there m) = m

module _ (view : Row → Row) (k : String) where
  get-put_found_self :
      (o : Option Row) (found : Dict Row)
      → get k found ≡ none
      → get k (put_found view o k found) ≡ Option.map view o
  unfolding put_found
  get-put_found_self none found e = e
  get-put_found_self (some d) found e =
      get-put k k (view d) found ∙ ap (λ b. if b then some (view d) else get k found) (eq_refl k)

  get-put_found_other :
      (o : Option Row) (id : String) (found : Dict Row)
      → (id == k) ≡ false
      → get k (put_found view o id found) ≡ get k found
  unfolding put_found
  get-put_found_other none id found n = refl
  get-put_found_other (some d) id found n =
      get-put id k (view d) found ∙ ap (λ b. if b then some (view d) else get k found) n

  get-put_found_again :
      (o : Option Row) (found : Dict Row)
      → get k found ≡ Option.map view o
      → get k (put_found view o k found) ≡ Option.map view o
  unfolding put_found
  get-put_found_again none found e = e
  get-put_found_again (some d) found e =
      get-put k k (view d) found ∙ ap (λ b. if b then some (view d) else get k found) (eq_refl k)

module _ (store : Store) (key : String → String) (view : Row → Row) (s : store.State)
    (k : String) where
  abbrev held : Option Row
  held = Option.map view (store.document s (key k))

  -- The key holds its document, and keeps it, whatever is asked for after.
  get-mget_kept :
      (ids : List Value) (found : Dict Row)
      → get k found ≡ held
      → get k (mget_from store key view s ids found) ≡ held
  unfolding mget_from
  get-mget_kept [] found e = e
  get-mget_kept (id ∷ ids) found e = get-mget_kept ids _ (elim (Bool-cases (value_text id == k)) [
    | inl same ↦
        let t = (eq_iff (value_text id) k).0 same in
        ap (λ n. get k (put_found view (store.document s (key n)) n found)) t
        ∙ get-put_found_again view k (store.document s (key k)) found e
    | inr other ↦ get-put_found_other view k _ (value_text id) found other ∙ e
  ])

  get-mget_from :
      (ids : List Value) (found : Dict Row)
      → get k found ≡ none
      → Has k (map value_text ids)
      → get k (mget_from store key view s ids found) ≡ held
  unfolding mget_from
  get-mget_from [] found e m = elim m [ ]
  get-mget_from (id ∷ ids) found e m = elim (Bool-cases (value_text id == k)) [
    | inl same ↦
        let t = (eq_iff (value_text id) k).0 same in
        get-mget_kept ids _ (
          ap (λ n. get k (put_found view (store.document s (key n)) n found)) t
          ∙ get-put_found_self view k (store.document s (key k)) found e)
    | inr other ↦
        get-mget_from ids _ (get-put_found_other view k _ (value_text id) found other ∙ e)
          (Has-later (value_text id) (map value_text ids) other m)
  ]

  get-mget_unasked :
      (ids : List Value) (found : Dict Row)
      → get k found ≡ none
      → (Has k (map value_text ids) → ⊥)
      → get k (mget_from store key view s ids found) ≡ none
  unfolding mget_from
  get-mget_unasked [] found e m = e
  get-mget_unasked (id ∷ ids) found e m =
      get-mget_unasked ids _
        (get-put_found_other view k _ (value_text id) found
            (not_equal (value_text id) k (λ q. m (here (sym q))))
          ∙ e)
        (λ h. m (there h))

map-identity : (o : Option Row) → Option.map (λ (d : Row). d) o ≡ o
map-identity none = refl
map-identity (some d) = refl

-- The identifier is among those asked for.
abbrev pub is_asked : String → List Value → Bool
is_asked k [] = false
is_asked k (id ∷ ids) = if value_text id == k then true else is_asked k ids

is_asked-Has : (k : String) (ids : List Value) → is_asked k ids ≡ true → Has k (map value_text ids)
is_asked-Has k [] e = absurd (cc e)
is_asked-Has k (id ∷ ids) e = elim (Bool-cases (value_text id == k)) [
  | inl same ↦ here (sym ((eq_iff (value_text id) k).0 same))
  | inr other ↦ there (is_asked-Has k ids (rw other at e))
]

pub Has-is_asked :
    (k : String) (ids : List Value) → Has k (map value_text ids) → is_asked k ids ≡ true
Has-is_asked k [] h = elim h [ ]
Has-is_asked k (id ∷ ids) h = elim (Bool-cases (value_text id == k)) [
  | inl same ↦ rw same refl
  | inr other ↦
      rw other (Has-is_asked k ids (Has-later (value_text id) (map value_text ids) other h))
]

-- The lookup of orders by identifier gives, for each identifier asked for, the document of the store
-- where there is one, and has no other key.
pub get-mget_orders :
    (store : Store) (s : store.State) (ids : List Value) (k : String)
    → get k (mget_orders store s ids) ≡ (if is_asked k ids then store.document s k else none)
unfolding mget_orders get
get-mget_orders store s ids k = elim (Bool-cases (is_asked k ids)) [
  | inl e ↦ rw e (
      get-mget_from store (λ j. j) (λ d. d) s k ids [] refl (is_asked-Has k ids e)
      ∙ map-identity (store.document s k))
  | inr e ↦
      let unasked : Has k (map value_text ids) → ⊥ = λ h. let asked = Has-is_asked k ids h in cc in
      rw e (get-mget_unasked store (λ j. j) (λ d. d) s k ids [] refl unasked)
]
