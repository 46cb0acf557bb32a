-- ===== src/Proxy/Headers.antt =====
-- stripHopByHopHeaders and RedactResponseHeaders of internal/proxy/proxy.go. A header is a map from
-- keys in canonical form; `canonical` is `textproto.CanonicalMIMEHeaderKey`, which Del and Values
-- apply to their argument.
use scopepilot.Prelude.{
  ◌≡◌, refl, ◌∙◌, inl, inr, Bool, true, false, List, [], ◌∷◌, Option, none, some, if◌then◌else◌,
  any, Bool-cases, same, lookup, erase, lookup-erase,
}
use scopepilot.Text.{Text, codes, text_eq, text_keys, trim_space, split}

abbrev pub Header : Type 0
Header = List (Text × List Text)

abbrev pub or_nil : Option (List Text) → List Text
or_nil none = []
or_nil (some vs) = vs

module _ (canonical : Text → Text) where
  -- Del of each name in a list
  unfoldable pub delete_all : List Text → Header → Header
  delete_all [] h = h
  delete_all (name ∷ names) h = delete_all names (erase (canonical name) h)

  -- The loop over the names that one value of Connection lists; an empty name is passed over.
  unfoldable pub delete_tokens : List Text → Header → Header
  unfolding trim_space
  delete_tokens [] h = h
  delete_tokens (token ∷ tokens) h =
      delete_tokens tokens
        (if text_eq (trim_space token) [] then h else erase (canonical (trim_space token)) h)

  -- The loop over the values of Connection, which are read once.
  unfoldable pub delete_listed : List Text → Header → Header
  unfolding delete_tokens split
  delete_listed [] h = h
  delete_listed (value ∷ values) h = delete_listed values (delete_tokens (split value b',') h)

  abbrev pub hop_by_hop : List Text
  hop_by_hop =
      codes "Connection"
      ∷ codes "Keep-Alive"
      ∷ codes "Proxy-Authenticate"
      ∷ codes "Proxy-Authorization"
      ∷ codes "TE"
      ∷ codes "Trailer"
      ∷ codes "Transfer-Encoding"
      ∷ codes "Upgrade"
      ∷ []

  -- stripHopByHopHeaders
  unfoldable pub strip_hop_by_hop : Header → Header
  unfolding delete_listed delete_all
  strip_hop_by_hop h =
      delete_all hop_by_hop (delete_listed (or_nil (lookup (canonical (codes "Connection")) h)) h)

  -- RedactResponseHeaders
  unfoldable pub redact_response_headers : Header → Header
  redact_response_headers h =
      erase (canonical (codes "Set-Cookie"))
        (erase (canonical (codes "Cookie")) (erase (canonical (codes "Authorization")) h))

  -- Whether a key is among some names, or is named by some tokens or values of Connection.
  abbrev pub among : Text → List Text → Bool
  among k names = any (λ n. same (canonical n) k) names

  abbrev pub token_names : Text → List Text → Bool
  token_names k tokens =
      any (λ t. if text_eq (trim_space t) [] then false else same (canonical (trim_space t)) k)
        tokens

  abbrev pub listed : Text → List Text → Bool
  listed k values = any (λ v. token_names k (split v b',')) values

  module _ (k : Text) where
    abbrev Without : Bool → Header → Header → Type 0
    Without b h h' = lookup k h' ≡ (if b then none else lookup k h)

    then_Without :
        (a b : Bool) (h h₁ h₂ : Header)
        → Without a h h₁
        → Without b h₁ h₂
        → Without (if a then true else b) h h₂
    then_Without true true h h₁ h₂ e f = f
    then_Without true false h h₁ h₂ e f = f ∙ e
    then_Without false true h h₁ h₂ e f = f
    then_Without false false h h₁ h₂ e f = f ∙ e

    all-Without : (names : List Text) (h : Header) → Without (among k names) h (delete_all names h)
    unfolding delete_all
    all-Without [] h = refl
    all-Without (n ∷ names) h =
        then_Without (same (canonical n) k) (among k names) h (erase (canonical n) h) _
          (lookup-erase (canonical n) k h) (all-Without names (erase (canonical n) h))

    tokens-Without :
        (tokens : List Text) (h : Header)
        → Without (token_names k tokens) h (delete_tokens tokens h)
    unfolding delete_tokens
    tokens-Without [] h = refl
    tokens-Without (t ∷ tokens) h = elim (Bool-cases (text_eq (trim_space t) [])) [
      | inl b ↦ rw b (tokens-Without tokens h)
      | inr b ↦ rw b (
          then_Without (same (canonical (trim_space t)) k) (token_names k tokens) h
            (erase (canonical (trim_space t)) h) _ (lookup-erase (canonical (trim_space t)) k h)
            (tokens-Without tokens (erase (canonical (trim_space t)) h)))
    ]

    listed-Without :
        (values : List Text) (h : Header) → Without (listed k values) h (delete_listed values h)
    unfolding delete_listed
    listed-Without [] h = refl
    listed-Without (v ∷ values) h =
        then_Without (token_names k (split v b',')) (listed k values) h
          (delete_tokens (split v b',') h) _ (tokens-Without (split v b',') h)
          (listed-Without values (delete_tokens (split v b',') h))

    -- stripHopByHopHeaders removes the keys that a token of a Connection value names and those of the
    -- hop-by-hop list, both in canonical form, and leaves the values of every other key as they are.
    pub strip_hop_by_hop-lookup :
        (h : Header)
        → lookup k (strip_hop_by_hop h) ≡ (
            if (if listed k (or_nil (lookup (canonical (codes "Connection")) h))
              then true
              else among k hop_by_hop)
            then none
            else lookup k h)
    unfolding strip_hop_by_hop
    strip_hop_by_hop-lookup h =
        let values = or_nil (lookup (canonical (codes "Connection")) h) in
        then_Without (listed k values) (among k hop_by_hop) h (delete_listed values h) _
          (listed-Without values h) (all-Without hop_by_hop (delete_listed values h))

    -- RedactResponseHeaders removes the three keys and leaves the values of every other key.
    pub redact_response_headers-lookup :
        (h : Header)
        → lookup k (redact_response_headers h) ≡ (
            if among k (codes "Authorization" ∷ codes "Cookie" ∷ codes "Set-Cookie" ∷ [])
            then none
            else lookup k h)
    unfolding redact_response_headers delete_all
    redact_response_headers-lookup h =
        all-Without (codes "Authorization" ∷ codes "Cookie" ∷ codes "Set-Cookie" ∷ []) h
