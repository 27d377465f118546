-- ===== src/Core/Ffi/Outcomes.antt =====
-- What a call of `cryprq_init` leaves.
use cryprq.Base.{ℕ, List, [], take, ltb, Bool, true, false, ◌&&◌, Option, none, some}
use cryprq.Base.{ok, err, ◌>>=◌, Outcome-cases, >>=-eq-ok}
use cryprq.Base.{◌≡◌, ◌≢◌, ◌⊎◌, refl, sym, ◌∙◌, arith, Option-cases, Bool-cases, inl, inr}
use cryprq.Core.Ffi
use cryprq.Core.Ffi.Init.{
  Views, Fails, Fails->>=, collect_views-Fails, collect_views-Views, read_optional_cstr-Fails,
}

-- The texts of a configuration's views; none if it has none.
abbrev pub Granted : Ffi.Config → List (List ℕ) → Type 0
Granted cfg texts =
    ((ltb 0 cfg.allow_peers_len ≡ false) × (texts ≡ []))
    ⊎ ((views : List Ffi.StrView) × (cfg.allow_peers ≡ some views)
        × Views (take cfg.allow_peers_len views) texts)

allow_list-Fails : (cfg : Ffi.Config) → Fails (Ffi.allow_list cfg)
unfolding Ffi.allow_list
allow_list-Fails cfg = elim (Option-cases cfg.allow_peers) [
  | inl missing ↦ ((λ x. ground (arith, missing, x)), λ e x y. ground (arith, missing, x, y))
  | inr (views, given) ↦ elim (Bool-cases (ltb 0 cfg.allow_peers_len)) [
    | inl some_views ↦
        let read : Ffi.allow_list cfg ≡ Ffi.collect_views (take cfg.allow_peers_len views) =
          ground (arith, given, some_views) in
        rw read (collect_views-Fails (take cfg.allow_peers_len views))
    | inr no_views ↦
        let read : Ffi.allow_list cfg ≡ ok [] = ground (arith, given, no_views) in
        rw read ((λ x. cc), λ e x. cc)
  ]
]

allow_list-Granted :
    (cfg : Ffi.Config) (texts : List (List ℕ))
    → (ltb 0 cfg.allow_peers_len && Ffi.is_null cfg.allow_peers) ≡ false
    → Ffi.allow_list cfg ≡ ok texts
    → Granted cfg texts
unfolding Ffi.allow_list
allow_list-Granted cfg texts present e = elim (Bool-cases (ltb 0 cfg.allow_peers_len)) [
  | inr no_views ↦
      let nothing : Ffi.allow_list cfg ≡ ok [] = ground (arith, no_views) in
      let empty : ok [] ≡ ok texts = sym nothing ∙ e in
      let same : [] ≡ texts = cc in inl (no_views, sym same)
  | inl some_views ↦ elim (Option-cases cfg.allow_peers) [
    | inl missing ↦ absurd (ground (arith, present, some_views, missing))
    | inr (views, given) ↦
        let read : Ffi.allow_list cfg ≡ Ffi.collect_views (take cfg.allow_peers_len views) =
          ground (arith, given, some_views) in
        inr
          (views, given, collect_views-Views (take cfg.allow_peers_len views) texts (sym read ∙ e))
  ]
]

module _ (can_create : Bool) (rust_log : Option (List ℕ)) where
  new_handle-Fails : (allow : List (List ℕ)) → Fails (Ffi.new_handle can_create allow)
  unfolding Ffi.new_handle
  new_handle-Fails allow = elim (Bool-cases can_create) [
    | inl can ↦ rw can ((λ x. cc), λ e x. cc)
    | inr cannot ↦ rw cannot ((λ x. cc), λ e x y. cc)
  ]

  new_handle-ok :
      (allow : List (List ℕ)) (h : Ffi.Handle)
      → Ffi.new_handle can_create allow ≡ ok h
      → (h.allow_peers ≡ allow) × (h.connection ≡ none) × (can_create ≡ true)
  unfolding Ffi.new_handle
  new_handle-ok allow h e = ground (arith, e)

  -- The two ways in which a configuration is read.
  init_inner-ways :
      (cfg : Ffi.Config)
      → let result = (Ffi.init_inner can_create rust_log cfg).0 in
        ((e : Ffi.ErrorCode) × (result ≡ err e) × (e ≢ Ffi.code_ok))
        ⊎ ((result ≡ (Ffi.allow_list cfg >>= λ allow. Ffi.new_handle can_create allow))
            × ((ltb 0 cfg.allow_peers_len && Ffi.is_null cfg.allow_peers) ≡ false))
  unfolding Ffi.init_inner
  init_inner-ways cfg =
      elim (Bool-cases (ltb 0 cfg.allow_peers_len && Ffi.is_null cfg.allow_peers)) [
        | inl missing ↦ rw missing (inl (Ffi.err_null, refl, λ x. cc))
        | inr present ↦ elim (Outcome-cases (Ffi.read_optional_cstr cfg.log_level)) [
          | inl (level, e) ↦ inr (ground (arith, present, e), present)
          | inr (inl (code, e)) ↦
              inl (
                code,
                ground (arith, present, e),
                (read_optional_cstr-Fails cfg.log_level).1 code e,
              )
          | inr (inr e) ↦ absurd ((read_optional_cstr-Fails cfg.log_level).0 e)
        ]
      ]

  init_inner-Fails : (cfg : Ffi.Config) → Fails (Ffi.init_inner can_create rust_log cfg).0
  init_inner-Fails cfg = elim (init_inner-ways cfg) [
    | inl (code, e, failed) ↦
        rw e ((λ x. cc), λ e' x. let same : code ≡ e' = cc in rw (sym same) failed)
    | inr (e, present) ↦
        rw e (Fails->>= (Ffi.allow_list cfg) _ (allow_list-Fails cfg) new_handle-Fails)
  ]

  init_inner-ok :
      (cfg : Ffi.Config) (h : Ffi.Handle)
      → (Ffi.init_inner can_create rust_log cfg).0 ≡ ok h
      → Granted cfg h.allow_peers × (h.connection ≡ none) × (can_create ≡ true)
  init_inner-ok cfg h done = elim (init_inner-ways cfg) [
    | inl (code, e, failed) ↦ absurd (let x : err code ≡ ok h = sym e ∙ done in cc)
    | inr (e, present) ↦
        let (allow, read, made) = >>=-eq-ok (Ffi.allow_list cfg) _ (sym e ∙ done) in
        let (same, idle, can) = new_handle-ok allow h made in
        (rw same (allow_list-Granted cfg allow present read), idle, can)
  ]

  -- Initialisation returns on every configuration: with the code for success it leaves a handle
  -- without a connection, whose peers are the texts of the views, all in UTF-8, and with any
  -- other code it leaves none.
  pub cryprq_init_lem :
      (config : Option Ffi.Config) (out_handle : Bool)
      → let (code, (handle, rust_log')) = Ffi.cryprq_init can_create rust_log config out_handle in
        ((cfg : Ffi.Config) × ((h : Ffi.Handle) × (config ≡ some cfg)
            × (code ≡ some Ffi.code_ok)
            × (handle ≡ some h)
            × Granted cfg h.allow_peers
            × (h.connection ≡ none)
            × (can_create ≡ true)))
        ⊎ ((e : Ffi.ErrorCode) × (code ≡ some e) × (e ≢ Ffi.code_ok) × (handle ≡ none))
  unfolding Ffi.cryprq_init
  cryprq_init_lem none out_handle = inr (Ffi.err_null, refl, (λ x. cc), refl)
  cryprq_init_lem (some cfg) false = inr (Ffi.err_null, refl, (λ x. cc), refl)
  cryprq_init_lem (some cfg) true =
      elim (Outcome-cases (Ffi.init_inner can_create rust_log cfg).0) [
        | inl (h, e) ↦
            let (granted, idle, can) = init_inner-ok cfg h e in
            inl (cfg, (h, refl, ground (arith, e), ground (arith, e), granted, idle, can))
        | inr (inl (code, e)) ↦
            inr (code, ground (arith, e), (init_inner-Fails cfg).1 code e, ground (arith, e))
        | inr (inr e) ↦ absurd ((init_inner-Fails cfg).0 e)
      ]
