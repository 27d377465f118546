-- ===== src/Core/Ffi/Init.antt =====
-- What a configuration has to be for `cryprq_init` to make a handle of it.
use cryprq.Base.{ℕ, List, [], ◌∷◌, take, true, Option, none, some}
use cryprq.Base.{Outcome, ok, err, panicked, ◌>>=◌, >>=-eq-ok}
use cryprq.Base.{◌≡◌, ◌≢◌, refl, sym, ap, subst, arith, Option-cases, Bool-cases, inl, inr}
use cryprq.Base.Utf8.{is_utf8}
use cryprq.Core.Ffi

-- A view of a text.
abbrev pub Views : List Ffi.StrView → List (List ℕ) → Type 0
Views [] [] = Unit {0}
Views [] (text ∷ texts) = ⊥
Views (view ∷ views) [] = ⊥
Views (view ∷ views) (text ∷ texts) =
    ((bytes : List ℕ) × (view.data' ≡ some bytes)
      × (take view.len bytes ≡ text)
      × (is_utf8 text ≡ true))
    × Views views texts

str_view_to_string-ok :
    (view : Ffi.StrView) (text : List ℕ)
    → Ffi.str_view_to_string view ≡ ok text
    → (bytes : List ℕ) × (view.data' ≡ some bytes)
      × (take view.len bytes ≡ text)
      × (is_utf8 text ≡ true)
unfolding Ffi.str_view_to_string Ffi.to_str
str_view_to_string-ok view text e = elim (Option-cases view.data') [
  | inl missing ↦ absurd (ground (arith, e, missing))
  | inr (bytes, named) ↦ elim (Bool-cases (is_utf8 (take view.len bytes))) [
    | inr garbled ↦ absurd (ground (arith, e, named, garbled))
    | inl valid ↦
        let same : ok (take view.len bytes) ≡ Ffi.str_view_to_string view =
          ground (arith, named, valid) in
        let text_read : take view.len bytes ≡ text = cc in
        (bytes, named, text_read, rw (sym text_read) valid)
  ]
]

pub collect_views-Views :
    (views : List Ffi.StrView) (texts : List (List ℕ))
    → Ffi.collect_views views ≡ ok texts
    → Views views texts
unfolding Ffi.collect_views
collect_views-Views [] [] e = tt
collect_views-Views [] (text ∷ texts) e = absurd cc
collect_views-Views (view ∷ views) texts e =
    let (first, read, more) = >>=-eq-ok (Ffi.str_view_to_string view) _ e in
    let (rest, reads, whole) = >>=-eq-ok (Ffi.collect_views views) _ more in
    let all : first ∷ rest ≡ texts = cc in
    subst (λ (t : List (List ℕ)). Views (view ∷ views) t) all
      (str_view_to_string-ok view first read, collect_views-Views views rest reads)

-- A call that returns, and whose errors have a code of their own.
abbrev pub Fails : {A : Type 0} → Outcome Ffi.ErrorCode A → Type 0
Fails m = (m ≢ panicked) × ((e : Ffi.ErrorCode) → m ≡ err e → e ≢ Ffi.code_ok)

pub Fails->>= :
    {A B : Type 0} (m : Outcome Ffi.ErrorCode A) (next : A → Outcome Ffi.ErrorCode B)
    → Fails m
    → ((a : A) → Fails (next a))
    → Fails (m >>= next)
Fails->>= (ok a) next h k = k a
Fails->>= (err e) next h k =
    ((λ x. cc), λ e' same. h.1 e' (let inner : e ≡ e' = cc in ap err inner))
Fails->>= panicked next h k = absurd (h.0 refl)

to_str-Fails : (bytes : List ℕ) → Fails (Ffi.to_str bytes)
unfolding Ffi.to_str
to_str-Fails bytes = elim (Bool-cases (is_utf8 bytes)) [
  | inl valid ↦ rw valid ((λ x. cc), λ e x. cc)
  | inr garbled ↦ rw garbled ((λ x. cc), λ e x y. cc)
]

str_view_to_string-Fails : (view : Ffi.StrView) → Fails (Ffi.str_view_to_string view)
unfolding Ffi.str_view_to_string
str_view_to_string-Fails view = elim (Option-cases view.data') [
  | inl missing ↦ ((λ x. ground (arith, missing, x)), λ e x y. ground (arith, missing, x, y))
  | inr (bytes, named) ↦
      let read : Ffi.str_view_to_string view ≡ Ffi.to_str (take view.len bytes) =
        ground (arith, named) in
      rw read (to_str-Fails (take view.len bytes))
]

pub collect_views-Fails : (views : List Ffi.StrView) → Fails (Ffi.collect_views views)
unfolding Ffi.collect_views
collect_views-Fails [] = ((λ x. cc), λ e x. cc)
collect_views-Fails (view ∷ views) =
    Fails->>= (Ffi.str_view_to_string view) _ (str_view_to_string-Fails view) (λ first.
      Fails->>= (Ffi.collect_views views) _ (collect_views-Fails views)
        (λ rest. ((λ x. cc), λ e x. cc)))

pub read_optional_cstr-Fails : (ptr : Option (List ℕ)) → Fails (Ffi.read_optional_cstr ptr)
unfolding Ffi.read_optional_cstr
read_optional_cstr-Fails none = ((λ x. cc), λ e x. cc)
read_optional_cstr-Fails (some bytes) =
    Fails->>= (Ffi.to_str bytes) _ (to_str-Fails bytes) (λ value. ((λ x. cc), λ e x. cc))
