-- ===== src/Tools/Update/Release/Checked.antt =====
-- What a download that is staged, and a binary that is verified, have passed.
use nff_core.Prelude.{
  ℕ, nat_eqb, true, Option, none, some, List, [], ◌∷◌, Text, Result, ok, ◌==◌, text_eq,
  text_eqb_iff, ◌≡◌, refl, ap, ◌∙◌, Bool-cases, inl, inr, nat_eqb_iff,
}
use nff_core.Tools.Update.State.{Stage}
use nff_core.Tools.Update.Swap.{Binary}
use nff_core.Tools.Update.Release.{
  parse_sha256sums, Download, matched, summed, fetched, staged, download_and_stage, is_infix,
  reported, verify_staged,
}

-- The binary is the one that was downloaded, and the sums list its hash for the asset.
pub record IsListed (sha256 : Binary → Text) (d : Download) (binary : Binary) : Type 0 where
  pub asset : Text
  pub lines : List Text
  pub is_asset : d.asset ≡ some asset
  pub is_body : d.body ≡ some binary
  pub is_sums : d.sums ≡ some lines
  pub listed : parse_sha256sums lines asset ≡ some (sha256 binary)

ok_inj : {x y : Binary} → ◌≡◌ {A = Result Stage Binary} (ok x) (ok y) → x ≡ y
ok_inj h = cc

module _ (sha256 : Binary → Text) (d : Download) (binary : Binary) where
  matched-ok :
      (body : Binary) (expected : Option Text)
      → matched sha256 d body expected ≡ ok binary
      → (body ≡ binary) × (expected ≡ some (sha256 binary))
  unfolding matched
  matched-ok body none h = cc
  matched-ok body (some []) h = cc
  matched-ok body (some (c ∷ expected)) h = elim (Bool-cases (sha256 body == c ∷ expected)) [
    | inl e ↦ elim (Bool-cases d.can_stage) [
      | inl t ↦
          let same : body ≡ binary = ok_inj (rw (e, t) at h) in
          (same, cc (same, (text_eqb_iff (sha256 body) (c ∷ expected)).0 e))
      | inr t ↦ cc (rw (e, t) at h)
    ]
    | inr e ↦ cc (rw e at h)
  ]

  summed-IsListed :
      (asset : Text) (body : Binary) (sums : Option (List Text))
      → d.asset ≡ some asset
      → d.body ≡ some body
      → d.sums ≡ sums
      → summed sha256 d asset body sums ≡ ok binary
      → IsListed sha256 d binary
  unfolding summed
  summed-IsListed asset body none a b l h = cc
  summed-IsListed asset body (some lines) a b l h =
      let (same, listed) = matched-ok body (parse_sha256sums lines asset) h in
      record {
        asset = asset;
        lines = lines;
        is_asset = a;
        is_body = b ∙ ap some same;
        is_sums = l;
        listed = listed;
      }

  fetched-IsListed :
      (asset : Text) (body : Option Binary)
      → d.asset ≡ some asset
      → d.body ≡ body
      → fetched sha256 d asset body ≡ ok binary
      → IsListed sha256 d binary
  unfolding fetched
  fetched-IsListed asset none a b h = cc
  fetched-IsListed asset (some body) a b h = summed-IsListed asset body d.sums a b refl h

  staged-IsListed :
      (asset : Option Text)
      → d.asset ≡ asset
      → staged sha256 d asset ≡ ok binary
      → IsListed sha256 d binary
  unfolding staged
  staged-IsListed none a h = cc
  staged-IsListed (some asset) a h = fetched-IsListed asset d.body a refl h

  pub download_and_stage-IsListed :
      download_and_stage sha256 d ≡ ok binary → IsListed sha256 d binary
  unfolding download_and_stage
  download_and_stage-IsListed h = staged-IsListed d.asset refl h

-- The binary ran, exited with 0 and printed the version.
abbrev pub Reports : (Binary → Option (ℕ × Text)) → Binary → Text → Type 0
Reports run binary version =
    (output : Text) × (run binary ≡ some (0, output)) × (is_infix version output ≡ true)

reported-Reports :
    (run : Binary → Option (ℕ × Text)) (binary : Binary) (version : Text) (o : Option (ℕ × Text))
    → run binary ≡ o
    → reported version o ≡ true
    → Reports run binary version
unfolding reported
reported-Reports run binary version none e h = cc
reported-Reports run binary version (some (code, output)) e h = elim (Bool-cases (nat_eqb code 0)) [
  | inl t ↦
      let zero_code : code ≡ 0 = (nat_eqb_iff code 0).0 t in
      (output, e ∙ ap (λ c. some (c, output)) zero_code, rw t at h)
  | inr t ↦ cc (rw t at h)
]

pub verify_staged-Reports :
    (run : Binary → Option (ℕ × Text)) (binary : Binary) (version : Text)
    → verify_staged run binary version ≡ true
    → Reports run binary version
unfolding verify_staged
verify_staged-Reports run binary version h = reported-Reports run binary version (run binary) refl h
