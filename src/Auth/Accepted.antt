-- ===== src/Auth/Accepted.antt =====
-- src/auth.rs: which configurations production accepts.
use flo.Base.{
  >>=-eq-ok, sym, ◌∙◌, ◌≡◌, refl, ◌↔◌, ◌⊎◌, inl, inr, true, ◌&&◌, not, Option, some, Str, codes,
  arith, ok, Option-cases, Bool-cases,
}
use flo.Auth.Mode.{AuthMode, mtls, ed25519, AuthConfig, is_authenticated}
use flo.Auth.Credentials.{
  Files, has_header, validate_pem_file, check_credentials, check_files, validate_production,
}

module _ (files : Files) where
  -- A readable file with the PEM header of its field.
  abbrev IsPem : Str → Str → Type 0
  IsPem field path =
      (files.exists path ≡ true)
      × ((content : Str) × (files.read_to_string path ≡ some content)
          × (has_header files field content ≡ true))

  abbrev HasPem : Str → Option Str → Type 0
  HasPem field Option.none = ⊥
  HasPem field (some path) = IsPem field path

  abbrev pub HasCredentials : AuthConfig → Type 0
  HasCredentials c =
      HasPem (codes "cert") c.cert × HasPem (codes "key") c.key × HasPem (codes "trust") c.trust

  validate_pem_file_iff :
      (path field : Str) → (validate_pem_file files path field ≡ ok tt) ↔ IsPem field path
  unfolding validate_pem_file
  validate_pem_file_iff path field = elim (Option-cases (files.read_to_string path)) [
    | inl e ↦ ground arith
    | inr (content, e) ↦ (
      λ h. (ground arith, (content, e, ground arith)),
      λ (there, (found, e_found, h)). ground arith,
    )
  ]

  pub check_files_lem :
      (c : AuthConfig)
      → ((x : AuthConfig) → check_files files c ≡ ok x → HasCredentials c)
        × (HasCredentials c → check_files files c ≡ ok c)
  check_files_lem c = elim (Option-cases c.cert) [
    | inl e ↦ (λ x h. ground arith, λ h. ground arith)
    | inr (cert, e_cert) ↦ elim (Option-cases c.key) [
      | inl e ↦ (λ x h. ground arith, λ h. ground arith)
      | inr (key, e_key) ↦ elim (Option-cases c.trust) [
        | inl e ↦ (λ x h. ground arith, λ h. ground arith)
        | inr (trust, e_trust) ↦
            rw (e_cert, e_key, e_trust)
              (
                λ x h. (
                  (validate_pem_file_iff cert (codes "cert")).0 (ground arith),
                  (validate_pem_file_iff key (codes "key")).0 (ground arith),
                  (validate_pem_file_iff trust (codes "trust")).0 (ground arith),
                ),
                λ (h_cert, h_key, h_trust). ground (
                  arith,
                  (validate_pem_file_iff cert (codes "cert")).1 h_cert,
                  (validate_pem_file_iff key (codes "key")).1 h_key,
                  (validate_pem_file_iff trust (codes "trust")).1 h_trust,
                ),
              )
      ]
    ]
  ]

  -- What production accepts: no authentication where that is allowed explicitly, and an
  -- authenticated mode with its three credential files.
  abbrev pub IsFit : AuthConfig → Type 0
  IsFit c =
      ((c.mode ≡ AuthMode.none) × (c.allow_insecure ≡ true))
      ⊎ ((is_authenticated c.mode ≡ true) × HasCredentials c)

  -- Production accepts a configuration exactly when it is unauthenticated and insecurity is allowed
  -- explicitly, or authenticated and its certificate, key and trust anchor are readable files with
  -- their PEM headers.
  validate_production_iff : (c : AuthConfig) → (validate_production files c ≡ ok c) ↔ IsFit c
  unfolding validate_production check_credentials is_authenticated
  validate_production_iff c = go c.mode refl
    where
      checked :
          is_authenticated c.mode ≡ true
          → check_credentials files c ≡ check_files files c
          → (validate_production files c ≡ ok c) ↔ IsFit c
      checked a e = (
        λ h.
            let (x, k, l) =
              >>=-eq-ok (check_credentials files c) (λ x. ok c) {value = c} (ground arith) in
            inr (a, (check_files_lem c).0 x (sym e ∙ k)),
        λ fit. elim fit [
          | inl (m, i) ↦ ground arith
          | inr (m, k) ↦ ground (arith, (check_files_lem c).1 k)
        ],
      )

      go : (mode : AuthMode) → c.mode ≡ mode → (validate_production files c ≡ ok c) ↔ IsFit c
      go AuthMode.none e = (
        λ h. inl (e, ground arith),
        λ fit. elim fit [ inl (m, i) ↦ ground arith | inr (m, k) ↦ ground arith ],
      )
      go mtls e = checked (rw e refl) (ground arith)
      go ed25519 e = checked (rw e refl) (ground arith)

  pub validate_production-IsFit : (c x : AuthConfig) → validate_production files c ≡ ok x → IsFit c
  unfolding validate_production is_authenticated
  validate_production-IsFit c x h =
      elim (Bool-cases (not (is_authenticated c.mode) && not c.allow_insecure)) [
        | inl e ↦ ground arith
        | inr e ↦
            let (y, k, l) =
              >>=-eq-ok (check_credentials files c) (λ y. ok c) {value = x} (ground arith) in
            (validate_production_iff c).0 (h ∙ sym l)
      ]
