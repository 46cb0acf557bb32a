-- ===== src/Mcp/Redacted.antt =====
-- What redactSensitiveMap hides.
use scopepilot.Prelude.{
  ℕ, zero, suc, ◌≡◌, refl, ap, ◌⊎◌, inl, inr, Bool, true, false, List, [], ◌∷◌, ◌++◌, Option, none,
  some, if◌then◌else◌, Bool-cases,
}
use scopepilot.Number.{ℤ}
use scopepilot.Text.{Text, text_eq, text_eq_iff}
use scopepilot.Mcp.Values.{
  Json, json_null, json_bool, json_number, json_string, json_array, json_object, Elements,
  no_elements, element, Members, no_members, member, member_of, redacted, is_sensitive_key,
  redact_sensitive_map, redact_value, redact_items, redact_item,
}

-- A step into an object or into an array.
pub data Step : Type 0 where
  key : Text → Step
  index : ℕ → Step

abbrev nth : ℕ → Elements → Option Json
nth i no_elements = none
nth zero (element v vs) = some v
nth (suc i) (element v vs) = nth i vs

abbrev child_of : Text → Json → Option Json
child_of k (json_object m) = member_of k m
child_of k (json_array vs) = none
child_of k json_null = none
child_of k (json_bool b) = none
child_of k (json_number n) = none
child_of k (json_string t) = none

abbrev pub element_of : ℕ → Json → Option Json
element_of i (json_array vs) = nth i vs
element_of i (json_object m) = none
element_of i json_null = none
element_of i (json_bool b) = none
element_of i (json_number n) = none
element_of i (json_string t) = none

abbrev child : Step → Json → Option Json
child (key k) v = child_of k v
child (index i) v = element_of i v

abbrev and_then : Option Json → (Json → Option Json) → Option Json
and_then none f = none
and_then (some v) f = f v

-- The value at the end of a path.
abbrev pub at : List Step → Json → Option Json
at [] v = some v
at (s ∷ path) v = and_then (child s v) (λ u. at path u)

abbrev hidden_member : Text → Option Json → Option Json
hidden_member k none = none
hidden_member k (some v) = some (if is_sensitive_key k then redacted else redact_value v)

abbrev hidden_element : Option Json → Option Json
hidden_element none = none
hidden_element (some v) = some (redact_item v)

-- Whether the path leads from an array straight into an array within it.
abbrev pub into_nested : List Step → Bool
into_nested [] = false
into_nested (key k ∷ path) = into_nested path
into_nested (index i ∷ []) = false
into_nested (index i ∷ key k ∷ path) = into_nested path
into_nested (index i ∷ index j ∷ path) = true

member-redacted :
    (k : Text) (m : Members)
    → member_of k (redact_sensitive_map m) ≡ hidden_member k (member_of k m)
unfolding member_of redact_sensitive_map
member-redacted k no_members = refl
member-redacted k (member j v m) = elim (Bool-cases (text_eq j k)) [
  | inl b ↦ rw (b, (text_eq_iff j k).0 b) refl
  | inr b ↦ rw b (member-redacted k m)
]

nth-redacted : (i : ℕ) (vs : Elements) → nth i (redact_items vs) ≡ hidden_element (nth i vs)
unfolding redact_sensitive_map
nth-redacted i no_elements = refl
nth-redacted zero (element v vs) = refl
nth-redacted (suc i) (element v vs) = nth-redacted i vs

Hidden : Option Json → Type 0
Hidden o = (o ≡ none) ⊎ (o ≡ some redacted)

no_child :
    (path : List Step) (k : Text) (v : Json)
    → ((s : Step) → child s v ≡ none)
    → at (path ++ (key k ∷ [])) v ≡ none
no_child [] k v h = ap (λ o. and_then o (λ u. some u)) (h (key k))
no_child (s ∷ path) k v h = ap (λ o. and_then o (λ u. at (path ++ (key k ∷ [])) u)) (h s)

null_leaf : (s : Step) → child s json_null ≡ none
null_leaf (key k) = refl
null_leaf (index i) = refl

bool_leaf : (b : Bool) (s : Step) → child s (json_bool b) ≡ none
bool_leaf b (key k) = refl
bool_leaf b (index i) = refl

number_leaf : (n : ℤ) (s : Step) → child s (json_number n) ≡ none
number_leaf n (key k) = refl
number_leaf n (index i) = refl

string_leaf : (t : Text) (s : Step) → child s (json_string t) ≡ none
string_leaf t (key k) = refl
string_leaf t (index i) = refl

after_index :
    (i : ℕ) (path : List Step) → into_nested (index i ∷ path) ≡ false → into_nested path ≡ false
after_index i [] h = refl
after_index i (key k ∷ path) h = h
after_index i (index j ∷ path) h = cc

into_array :
    (i : ℕ) (path : List Step) (k : Text) (vs : Elements)
    → into_nested (index i ∷ path) ≡ false
    → at (path ++ (key k ∷ [])) (json_array vs) ≡ none
into_array i [] k vs h = refl
into_array i (key j ∷ path) k vs h = refl
into_array i (index j ∷ path) k vs h = cc

module _ (k : Text) (secret : is_sensitive_key k ≡ true) where
  last_key : (o : Option Json) → Hidden (and_then (hidden_member k o) (λ u. some u))
  unfolding Hidden
  last_key none = inl refl
  last_key (some v) = rw secret (inr refl)

  under_key :
      (j : Text) (path : List Step)
      → ((v : Json) → Hidden (at (path ++ (key k ∷ [])) (redact_value v)))
      → (o : Option Json) → Hidden (and_then (hidden_member j o) (λ u. at (path ++ (key k ∷ [])) u))
  unfolding Hidden
  under_key j path each none = inl refl
  under_key j path each (some v) = elim (Bool-cases (is_sensitive_key j)) [
    | inl b ↦ rw b (inl (no_child path k redacted (string_leaf _)))
    | inr b ↦ rw b (each v)
  ]

  under_index :
      (path : List Step)
      → ((v : Json) → Hidden (at (path ++ (key k ∷ [])) (redact_item v)))
      → (o : Option Json) → Hidden (and_then (hidden_element o) (λ u. at (path ++ (key k ∷ [])) u))
  unfolding Hidden
  under_index path each none = inl refl
  under_index path each (some v) = each v

  hides_item :
      (i : ℕ) (path : List Step)
      → ((u : Json)
          → into_nested path ≡ false
          → Hidden (at (path ++ (key k ∷ [])) (redact_value u)))
      → (v : Json) → into_nested (index i ∷ path) ≡ false
      → Hidden (at (path ++ (key k ∷ [])) (redact_item v))
  unfolding redact_sensitive_map Hidden
  hides_item i path each json_null h = inl (no_child path k json_null null_leaf)
  hides_item i path each (json_bool b) h = inl (no_child path k (json_bool b) (bool_leaf b))
  hides_item i path each (json_number n) h = inl (no_child path k (json_number n) (number_leaf n))
  hides_item i path each (json_string t) h = inl (no_child path k (json_string t) (string_leaf t))
  hides_item i path each (json_array vs) h = inl (into_array i path k vs h)
  hides_item i path each (json_object m) h = each (json_object m) (after_index i path h)

  hides :
      (path : List Step) (v : Json)
      → into_nested path ≡ false
      → Hidden (at (path ++ (key k ∷ [])) (redact_value v))
  unfolding redact_sensitive_map Hidden
  hides path json_null h = inl (no_child path k json_null null_leaf)
  hides path (json_bool b) h = inl (no_child path k (json_bool b) (bool_leaf b))
  hides path (json_number n) h = inl (no_child path k (json_number n) (number_leaf n))
  hides path (json_string t) h = inl (no_child path k (json_string t) (string_leaf t))
  hides [] (json_object m) h = rw (member-redacted k m) (last_key (member_of k m))
  hides [] (json_array vs) h = inl refl
  hides (key j ∷ path) (json_array vs) h = inl refl
  hides (index i ∷ path) (json_object m) h = inl refl
  hides (key j ∷ path) (json_object m) h =
      rw (member-redacted j m) (under_key j path (λ v. hides path v h) (member_of j m))
  hides (index i ∷ path) (json_array vs) h =
      rw (nth-redacted i vs)
        (under_index path (λ v. hides_item i path (λ u. hides path u) v h) (nth i vs))

  -- A sensitive key has no value but "[REDACTED]" in the result, at any depth, as long as the path to
  -- it leads nowhere from an array straight into an array within it.
  pub redact_sensitive_map-hides :
      (path : List Step) (m : Members)
      → into_nested path ≡ false
      → (at (path ++ (key k ∷ [])) (json_object (redact_sensitive_map m)) ≡ none)
        ⊎ (at (path ++ (key k ∷ [])) (json_object (redact_sensitive_map m)) ≡ some redacted)
  unfolding redact_sensitive_map Hidden
  redact_sensitive_map-hides path m h = hides path (json_object m) h

-- What stands in an array within an array is left as it is, its sensitive keys too.
pub redact_sensitive_map-skips :
    (name : Text) (m : Members) (i : ℕ) (vs ws : Elements) (path : List Step)
    → is_sensitive_key name ≡ false
    → member_of name m ≡ some (json_array vs)
    → element_of i (json_array vs) ≡ some (json_array ws)
    → at (key name ∷ index i ∷ path) (json_object (redact_sensitive_map m))
      ≡ at path (json_array ws)
unfolding redact_sensitive_map
redact_sensitive_map-skips name m i vs ws path plain found nested =
    rw (member-redacted name m, found, plain, nth-redacted i vs, nested) refl
