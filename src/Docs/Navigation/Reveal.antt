-- ===== src/Docs/Navigation/Reveal.antt =====
-- `revealParents`: which parts of a menu are shown once a part has been revealed.
use lib_rabbit_job_queue.Common.{
  ℕ, zero, suc, ◌+◌, ◌<◌, ◌≡◌, ◌↔◌, refl, Bool, true, false, ◌||◌, Option, none, some, arith, ◌==◌,
  ==_iff, ◌⊎◌, inl, inr, sym, ◌∙◌, subst, Bool-cases,
}
use lib_rabbit_job_queue.Docs.Navigation.{
  Menu, put_part, unhide, reveal_parents, mark_found, reveal,
}

abbrev pub parent_of : Menu → ℕ → Option ℕ
parent_of m k = (m.part k).parent

-- Starting from a part that may be none, and going up, one comes to x.
pub data Above (up : ℕ → Option ℕ) (x : ℕ) : Option ℕ → Type 0 where
  here : {k : ℕ} → x ≡ k → Above up x (some k)
  higher : {k : ℕ} → Above up x (up k) → Above up x (some k)

abbrev pub Before : ℕ → Option ℕ → Type 0
Before k none = Unit
Before k (some p) = p < k

-- A parent stands before its children.
abbrev pub IsNested : Menu → Type 0
IsNested m = (k : ℕ) → Before k (parent_of m k)

-- The menus have the same parts but for what is hidden or active.
pub record SameParts (m q : Menu) : Type 0 where
  pub size : q.size ≡ m.size
  pub parents : (x : ℕ) → parent_of q x ≡ parent_of m x
  pub ids : (x : ℕ) → (q.part x).page_id ≡ (m.part x).page_id

SameParts-trans : {m q r : Menu} → SameParts m q → SameParts q r → SameParts m r
SameParts-trans a b = record {
  size = b.size ∙ a.size;
  parents = λ x. b.parents x ∙ a.parents x;
  ids = λ x. b.ids x ∙ a.ids x;
}

Above-same :
    {up down : ℕ → Option ℕ} {x : ℕ} {o : Option ℕ}
    → ((k : ℕ) → up k ≡ down k)
    → Above up x o
    → Above down x o
Above-same e (here f) = here f
Above-same {down = down} {x = x} e (higher {k} a) =
    higher (subst (Above down x) (e k) (Above-same e a))

Before-weaken : (a b : ℕ) (o : Option ℕ) → Before a o → a < b + 1 → Before b o
Before-weaken a b none h l = tt
Before-weaken a b (some p) h l = omega arith

-- What going up from o does to the menu m: the parts above are shown, and no others but those that
-- were.
pub record Revealed (m : Menu) (o : Option ℕ) (q : Menu) : Type 0 where
  pub parts : SameParts m q
  pub active : (x : ℕ) → (q.part x).is_active ≡ (m.part x).is_active
  pub shown : (x : ℕ) → Above (parent_of m) x o → (q.part x).is_hidden ≡ false
  pub kept : (x : ℕ) → (m.part x).is_hidden ≡ false → (q.part x).is_hidden ≡ false
  pub only :
      (x : ℕ)
      → (q.part x).is_hidden ≡ false
      → ((m.part x).is_hidden ≡ false) ⊎ Above (parent_of m) x o

-- Setting a part's classes.
abbrev put_mark : ℕ → Bool → Menu → Menu
put_mark k active m = put_part k (record (m.part k) { is_hidden = false; is_active = active }) m

put_mark-SameParts : (k : ℕ) (a : Bool) (m : Menu) → SameParts m (put_mark k a m)
put_mark-SameParts k a m = record {
  size = refl;
  parents = λ x. ground (arith, ==_iff x k);
  ids = λ x. ground (arith, ==_iff x k);
}

Above-top : {up : ℕ → Option ℕ} {x k : ℕ} → Above up x (some k) → (x ≡ k) ⊎ Above up x (up k)
Above-top (here e) = inl e
Above-top (higher a) = inr a

pub reveal_parents-Revealed :
    (fuel : ℕ) (o : Option ℕ) (m : Menu)
    → IsNested m
    → Before fuel o
    → (q : Menu) × (reveal_parents fuel o m ≡ some q) × Revealed m o q
unfolding reveal_parents
reveal_parents-Revealed fuel none m n l = (
  m,
  refl,
  record {
    parts = record { size = refl; parents = λ x. refl; ids = λ x. refl };
    active = λ x. refl;
    shown = λ x a. elim a [ ];
    kept = λ x h. h;
    only = λ x h. inl h;
  },
)
reveal_parents-Revealed zero (some k) m n l = absurd (omega arith)
reveal_parents-Revealed (suc fuel) (some k) m n l =
    let same = put_mark-SameParts k (m.part k).is_active m in
    let nested : IsNested (unhide k m) = λ x. subst (Before x) (sym (same.parents x)) (n x) in
    let (q, e, r) =
      reveal_parents-Revealed fuel (parent_of m k) (unhide k m) nested
        (Before-weaken k fuel (parent_of m k) (n k) (omega arith)) in
    (
      q,
      e,
      record {
        parts = SameParts-trans same r.parts;
        active = λ x. r.active x ∙ ground (arith, ==_iff x k);
        shown = λ x a. elim (Above-top a) [
          | inl f ↦ r.kept x (ground (arith, ==_iff x k))
          | inr b ↦ r.shown x (Above-same (λ y. sym (same.parents y)) b)
        ];
        kept = λ x h. r.kept x (ground (arith, ==_iff x k));
        only = λ x h. elim (r.only x h) [
          | inl f ↦ elim (Bool-cases (x == k)) [
            | inl y ↦ inr (here ((==_iff x k).0 y))
            | inr y ↦ inl (ground arith)
          ]
          | inr a ↦ inr (higher (Above-same same.parents a))
        ];
      },
    )

abbrev pub AllHidden : Menu → Type 0
AllHidden m = (x : ℕ) → (m.part x).is_hidden ≡ true

-- Of a menu that was hidden, the part k and what is above it are shown, and k has become active.
pub record Shows (m : Menu) (k : ℕ) (q : Menu) : Type 0 where
  pub parts : SameParts m q
  pub shown : (x : ℕ) → ((q.part x).is_hidden ≡ false) ↔ Above (parent_of m) x (some k)
  pub active : (x : ℕ) → (q.part x).is_active ≡ ((x == k) || (m.part x).is_active)

mark_found-hidden :
    (k : ℕ) (m : Menu) → (m.part k).is_hidden ≡ true → mark_found k m ≡ put_mark k true m
unfolding mark_found
mark_found-hidden k m h = simp h

pub reveal-Shows :
    (k : ℕ) (m : Menu) → IsNested m → AllHidden m → (q : Menu) × (reveal k m ≡ some q) × Shows m k q
unfolding reveal
reveal-Shows k m n h =
    let same = put_mark-SameParts k true m in
    let marked = put_mark k true m in
    let nested : IsNested marked = λ x. subst (Before x) (sym (same.parents x)) (n x) in
    let (q, e, r) = reveal_parents-Revealed (k + 1) (some k) marked nested (omega arith) in
    (
      q,
      rw (mark_found-hidden k m (h k)) e,
      record {
        parts = SameParts-trans same r.parts;
        shown = λ x. (
          λ s. elim (r.only x s) [
            | inl f ↦ here (ground (arith, ==_iff x k, h x))
            | inr a ↦ Above-same same.parents a
          ],
          λ a. r.shown x (Above-same (λ y. sym (same.parents y)) a),
        );
        active = λ x. r.active x ∙ ground (arith, ==_iff x k);
      },
    )
