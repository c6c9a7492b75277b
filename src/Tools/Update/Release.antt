-- ===== src/Tools/Update/Release.antt =====
-- Finding, downloading and checking a release, nff/tools/updater.py. The hash of the system's library, the
-- answers of the server and what a binary prints when it is run are arguments. A text of several lines is
-- the list of its lines. The collection of stale downloads is left out.
pub mod Checked
use nff_core.Prelude.{
  ℕ, nat_eqb, Bool, true, false, ◌&&◌, ◌||◌, Option, none, some, List, [], ◌∷◌, ◌++◌, if◌then◌else◌,
  Text, is_space, lower, Result, ok, err, ◌==◌, text_eq,
}
use nff_core.Tools.Update.Versions.{push_char, lstrip_char, parse_tag_version}
use nff_core.Tools.Update.State.{Stage, check, download, checksum, verify}
use nff_core.Tools.Update.Swap.{Binary}

-- The Location header of the answer to /releases/latest; the outer none is a request that failed.
pub found : Option Text → Result Stage Text
found none = err check
found (some []) = err check
found (some (c ∷ version)) = ok (c ∷ version)

located : Option Text → Option Text
unfolding parse_tag_version
located none = none
located (some []) = none
located (some (c ∷ location)) = parse_tag_version (c ∷ location)

unfoldable pub check_latest : Option (Option Text) → Result Stage Text
unfolding found located
check_latest none = err check
check_latest (some location) = found (located location)

is_empty : Text → Bool
is_empty [] = true
is_empty (c ∷ s) = false

-- The pieces between single blanks
pieces : Text → List Text
unfolding push_char
pieces [] = [] ∷ []
pieces (c ∷ s) = let rest = pieces s in if is_space c then [] ∷ rest else push_char c rest

nonempty : List Text → List Text
unfolding is_empty
nonempty [] = []
nonempty (w ∷ ws) = let rest = nonempty ws in if is_empty w then rest else w ∷ rest

-- `s.split()`
unfoldable pub words : Text → List Text
unfolding pieces nonempty is_space
words s = nonempty (pieces s)

digest_of : Text → List Text → Option Text
digest_of asset (digest ∷ name ∷ more) =
    if lstrip_char b'*' name == asset then some (lower digest) else none
digest_of asset _ = none

or_later : Option Text → Option Text → Option Text
or_later none later = later
or_later (some digest) later = some digest

-- The digest that the lines of SHA256SUMS name for the asset
unfoldable pub parse_sha256sums : List Text → Text → Option Text
unfolding digest_of or_later words
parse_sha256sums [] asset = none
parse_sha256sums (line ∷ lines) asset =
    or_later (digest_of asset (words line)) (parse_sha256sums lines asset)

-- What the server and the file system give to a download
pub record Download : Type 0 where
  -- asset_name: none on an unsupported platform
  pub asset : Option Text
  pub body : Option Binary
  pub sums : Option (List Text)
  -- whether the verified file can be moved to its staged name
  pub can_stage : Bool

matched : (Binary → Text) → Download → Binary → Option Text → Result Stage Binary
matched sha256 d body none = err checksum
matched sha256 d body (some []) = err checksum
matched sha256 d body (some (c ∷ expected)) =
    if sha256 body == c ∷ expected
    then (if d.can_stage then ok body else err download)
    else err checksum

summed : (Binary → Text) → Download → Text → Binary → Option (List Text) → Result Stage Binary
unfolding matched
summed sha256 d asset body none = err checksum
summed sha256 d asset body (some lines) = matched sha256 d body (parse_sha256sums lines asset)

fetched : (Binary → Text) → Download → Text → Option Binary → Result Stage Binary
unfolding summed
fetched sha256 d asset none = err download
fetched sha256 d asset (some body) = summed sha256 d asset body d.sums

staged : (Binary → Text) → Download → Option Text → Result Stage Binary
unfolding fetched
staged sha256 d none = err check
staged sha256 d (some asset) = fetched sha256 d asset d.body

unfoldable pub download_and_stage : (Binary → Text) → Download → Result Stage Binary
unfolding staged
download_and_stage sha256 d = staged sha256 d d.asset

starts_with : Text → Text → Bool
starts_with [] t = true
starts_with (c ∷ s) [] = false
starts_with (c ∷ s) (d ∷ t) = nat_eqb c d && starts_with s t

-- `s in t`
unfoldable pub is_infix : Text → Text → Bool
unfolding starts_with
is_infix s [] = starts_with s []
is_infix s (c ∷ t) = starts_with s (c ∷ t) || is_infix s t

-- The exit code of `<binary> --version` and what it prints; none where it does not run
reported : Text → Option (ℕ × Text) → Bool
reported version none = false
reported version (some (code, output)) = nat_eqb code 0 && is_infix version output

unfoldable pub verify_staged : (Binary → Option (ℕ × Text)) → Binary → Text → Bool
unfolding reported
verify_staged run binary version = reported version (run binary)
