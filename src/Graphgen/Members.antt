-- ===== src/Graphgen/Members.antt =====
-- Membership in the lists of the generator.
use Prim.Native.String.{String}
use mathlib.Core.List.{Memᴰ}
use mathlib.Core.List.Memᴰ
use route_rs.Common.{
  ◌≡◌, refl, ap, sym, ◌∙◌, subst, List, [], ◌∷◌, some, Bool, true, Outcome, ok, err, panic, ◌>>=◌,
  inl, inr, Bool-cases, Option-cases, ok_inj,
}
use route_rs.Graphgen.Fed.{All, declare_branches}
use route_rs.Graphgen.Links.{Feeder, filter, labels}
use route_rs.Graphgen.PipelineGraph.{EdgeData}

pub All-intro {ℓ κ} :
    {A : Type ℓ} (P : A → Type κ) (xs : List A) → ((x : A) → Memᴰ x xs → P x) → All P xs
All-intro P [] h = tt
All-intro P (x ∷ xs) h = (h x (Memᴰ.head refl), All-intro P xs (λ y m. h y (Memᴰ.tail m)))

pub All-mem {ℓ κ} : {A : Type ℓ} (P : A → Type κ) (xs : List A) (x : A) → All P xs → Memᴰ x xs → P x
All-mem P [] x h m = absurd (Memᴰ.not-nil m)
All-mem P (y ∷ xs) x h m = elim (Memᴰ.cases_cons m) [
  | inl e ↦ subst P (sym e) h.0
  | inr m' ↦ All-mem P xs x h.1 m'
]

pub Memᴰ-filter {ℓ} :
    {A : Type ℓ} (p : A → Bool) (xs : List A) (x : A)
    → Memᴰ x (filter p xs)
    → Memᴰ x xs × (p x ≡ true)
Memᴰ-filter p [] x m = absurd (Memᴰ.not-nil m)
Memᴰ-filter p (y ∷ xs) x m = elim (Bool-cases (p y)) [
  | inl yes_test ↦ elim (Memᴰ.cases_cons (rw yes_test at m)) [
    | inl e ↦ (Memᴰ.head e, ap p e ∙ yes_test)
    | inr m' ↦ let (there, h) = Memᴰ-filter p xs x m' in (Memᴰ.tail there, h)
  ]
  | inr no_test ↦ let (there, h) = Memᴰ-filter p xs x (rw no_test at m) in (Memᴰ.tail there, h)
]

pub filter-Memᴰ {ℓ} :
    {A : Type ℓ} (p : A → Bool) (xs : List A) (x : A)
    → Memᴰ x xs
    → p x ≡ true
    → Memᴰ x (filter p xs)
filter-Memᴰ p [] x m h = absurd (Memᴰ.not-nil m)
filter-Memᴰ p (y ∷ xs) x m h = elim (Memᴰ.cases_cons m) [
  | inl e ↦ let k : p y ≡ true = ap p (sym e) ∙ h in rw k (Memᴰ.head e)
  | inr m' ↦
      let later = filter-Memᴰ p xs x m' h in
      elim (Bool-cases (p y)) [
        | inl yes_test ↦ rw yes_test (Memᴰ.tail later)
        | inr no_test ↦ rw no_test later
      ]
]

-- A chain that gives a value got one from its first part.
pub bind_ok {ℓ κ} :
    {A : Type ℓ} {B : Type κ} (m : Outcome A) (f : A → Outcome B) (b : B)
    → (m >>= f) ≡ ok b
    → (a : A) × (m ≡ ok a) × (f a ≡ ok b)
bind_ok (ok a) f b h = (a, refl, h)
bind_ok (err e) f b h = cc
bind_ok panic f b h = cc

-- The label of an edge is one of those that `labels` gives.
pub label_of :
    (es : List EdgeData) (bs : List String) (e : EdgeData)
    → labels es ≡ ok bs
    → Memᴰ e es
    → (l : String) × (e.label ≡ some l) × Memᴰ l bs
label_of [] bs e h m = absurd (Memᴰ.not-nil m)
label_of (x ∷ es) bs e h m = elim (Option-cases x.label) [
  | inl unlabelled ↦ cc (rw unlabelled at h)
  | inr (l, labelled) ↦
      let (ks, all, k) = bind_ok (labels es) (λ more. ok (l ∷ more)) bs (rw labelled at h) in
      let same : l ∷ ks ≡ bs = ok_inj k in
      elim (Memᴰ.cases_cons m) [
        | inl e_x ↦
            (l, ap (λ (y : EdgeData). y.label) e_x ∙ labelled, subst (Memᴰ l) same (Memᴰ.head refl))
        | inr m' ↦
            let (j, at, there) = label_of es ks e all m' in
            (j, at, subst (Memᴰ j) same (Memᴰ.tail there))
      ]
]

pub branches_keep :
    (id : String) (bs : List String) (declared : List Feeder) (f : Feeder)
    → Memᴰ f declared
    → Memᴰ f (declare_branches id bs declared)
branches_keep id [] declared f m = m
branches_keep id (b ∷ bs) declared f m =
    branches_keep id bs ((id, some b) ∷ declared) f (Memᴰ.tail m)

pub branches_declare :
    (id : String) (bs : List String) (declared : List Feeder) (l : String)
    → Memᴰ l bs
    → Memᴰ (id, some l) (declare_branches id bs declared)
branches_declare id [] declared l m = absurd (Memᴰ.not-nil m)
branches_declare id (b ∷ bs) declared l m = elim (Memᴰ.cases_cons m) [
  | inl e ↦
      branches_keep id bs ((id, some b) ∷ declared) (id, some l)
        (Memᴰ.head (ap (λ (x : String). (id, some x)) e))
  | inr m' ↦ branches_declare id bs ((id, some b) ∷ declared) l m'
]
