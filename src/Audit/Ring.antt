-- ===== src/Audit/Ring.antt =====
-- The log as a window on the history of entries.
use mathlib.Core.List.{append-nil, append_assoc, reverse-cons}
use scopepilot.Prelude.{
  ℕ, zero, suc, ◌+◌, ◌-◌, ◌≤◌, ◌<◌, ◌≡◌, refl, sym, ap, ◌∙◌, subst, false, List, [], ◌∷◌, ◌++◌,
  some, arith, leb, leb→le, not_leb, ltb, ◌==◌, if◌then◌else◌, ap₂, ltb→lt, not_ltb,
  get_elem?-append_length, length, length-append, length-drop, length-reverse, take, drop, tail,
  get_elem?, reverse, Bool-cases, inl, inr, string_eq,
}
use scopepilot.Number.{ℤ, pos, negsuc}
use scopepilot.Audit.{Entry, Logger, new_logger, append_entry, collect, recent}

module _ {V : Type 0} where
  -- Log, called with each of the entries in turn.
  unfoldable pub log_all : Logger V → List (Entry V) → Logger V
  log_all l [] = l
  log_all l (e ∷ es) = log_all (append_entry l e) es

module _ {ℓ} {A : Type ℓ} where
  -- The last entries of a list, m at most.
  abbrev pub last_of : ℕ → List A → List A
  last_of m xs = drop (length xs - m) xs

  drop_nil : (n : ℕ) → drop {A = A} n [] ≡ []
  drop_nil zero = refl
  drop_nil (suc n) = refl

  take_all : (n : ℕ) (xs : List A) → length xs ≤ n → take n xs ≡ xs
  take_all zero [] h = refl
  take_all zero (x ∷ xs) h = absurd (omega arith)
  take_all (suc n) [] h = refl
  take_all (suc n) (x ∷ xs) h = ap (◌∷◌ x) (take_all n xs (omega arith))

  tail-drop : (n : ℕ) (xs : List A) → tail (drop n xs) ≡ drop (suc n) xs
  tail-drop zero [] = refl
  tail-drop zero (x ∷ xs) = refl
  tail-drop (suc n) [] = refl
  tail-drop (suc n) (x ∷ xs) = tail-drop n xs

  drop-append_left : (n : ℕ) (xs ys : List A) → n ≤ length xs → drop n (xs ++ ys) ≡ drop n xs ++ ys
  drop-append_left zero xs ys h = refl
  drop-append_left (suc n) [] ys h = absurd (omega arith)
  drop-append_left (suc n) (x ∷ xs) ys h = drop-append_left n xs ys (omega arith)

  get_elem?-append_lt :
      (xs ys : List A) (i : ℕ) → i < length xs → get_elem? (xs ++ ys) i ≡ get_elem? xs i
  get_elem?-append_lt [] ys i h = absurd (omega arith)
  get_elem?-append_lt (x ∷ xs) ys zero h = refl
  get_elem?-append_lt (x ∷ xs) ys (suc i) h = get_elem?-append_lt xs ys i (omega arith)

  get_elem?-reverse :
      (xs : List A) (i : ℕ)
      → i < length xs
      → get_elem? xs (length xs - 1 - i) ≡ get_elem? (reverse xs) i
  get_elem?-reverse [] i h = absurd (omega arith)
  get_elem?-reverse (x ∷ xs) i h = elim (Bool-cases (ltb i (length xs))) [
    | inl inside ↦
        let lt = ltb→lt i (length xs) inside in
        ap (get_elem? (x ∷ xs)) {x = suc (length xs) - 1 - i} {y = suc (length xs - 1 - i)}
          (omega arith)
        ∙ get_elem?-reverse xs i lt
        ∙ sym (get_elem?-append_lt (reverse xs) (x ∷ []) i (omega (arith, length-reverse xs)))
        ∙ ap (λ l. get_elem? l i) (sym (reverse-cons x xs))
    | inr last ↦
        let at_end : i ≡ length xs = omega (arith, not_ltb i (length xs) last) in
        ap (get_elem? (x ∷ xs)) {x = suc (length xs) - 1 - i} {y = 0} (omega arith)
        ∙ sym (get_elem?-append_length (reverse xs) [] x)
        ∙ ap₂ get_elem? (sym (reverse-cons x xs)) (length-reverse xs ∙ sym at_end)
  ]

  drop-get_elem? :
      (xs : List A) (i : ℕ) (v : A) → get_elem? xs i ≡ some v → drop i xs ≡ v ∷ drop (suc i) xs
  drop-get_elem? [] i v h = cc
  drop-get_elem? (x ∷ xs) zero v h = cc
  drop-get_elem? (x ∷ xs) (suc i) v h = drop-get_elem? xs i v h

  get_elem?-some : (xs : List A) (i : ℕ) → i < length xs → (v : A) × (get_elem? xs i ≡ some v)
  get_elem?-some [] i h = absurd (omega arith)
  get_elem?-some (x ∷ xs) zero h = (x, refl)
  get_elem?-some (x ∷ xs) (suc i) h = get_elem?-some xs i (omega arith)

  push_last :
      (m : ℕ) (xs : List A) (x : A)
      → 1 ≤ m
      → (if leb m (length (last_of m xs)) then tail (last_of m xs) else last_of m xs) ++ (x ∷ [])
        ≡ last_of m (xs ++ (x ∷ []))
  push_last m xs x h = elim (Bool-cases (leb m (length (last_of m xs)))) [
    | inl full ↦
        let enough : m ≤ length xs =
          omega (arith, leb→le _ _ full, length-drop (length xs - m) xs) in
        rw full (
          ap (λ t. t ++ (x ∷ [])) (tail-drop (length xs - m) xs)
          ∙ sym (drop-append_left (suc (length xs - m)) xs (x ∷ []) (omega arith))
          ∙ ap (λ n. drop n (xs ++ (x ∷ []))) {x = suc (length xs - m)}
              (omega (arith, length-append xs (x ∷ []))))
    | inr room ↦
        let short : length xs < m =
          omega (arith, not_leb _ _ room, length-drop (length xs - m) xs) in
        rw room (
          sym (drop-append_left (length xs - m) xs (x ∷ []) (omega arith))
          ∙ ap (λ n. drop n (xs ++ (x ∷ []))) {x = length xs - m}
              (omega (arith, length-append xs (x ∷ []))))
  ]

module _ {V : Type 0} where
  log_window :
      (l : Logger V) (past es : List (Entry V))
      → 1 ≤ l.max_entries
      → l.entries ≡ last_of l.max_entries past
      → (log_all l es).entries ≡ last_of l.max_entries (past ++ es)
  unfolding log_all append_entry
  log_window l past [] h w = rw (append-nil past) w
  log_window l past (e ∷ es) h w =
      subst (λ xs. (log_all (append_entry l e) es).entries ≡ last_of l.max_entries xs)
        (append_assoc past (e ∷ []) es)
        (log_window (append_entry l e) (past ++ (e ∷ [])) es h pushed)
    where
      pushed : (append_entry l e).entries ≡ last_of l.max_entries (past ++ (e ∷ []))
      pushed =
          subst
            (λ xs.
              (if leb l.max_entries (length xs) then tail xs else xs) ++ (e ∷ [])
              ≡ last_of l.max_entries (past ++ (e ∷ [])))
            (sym w) (push_last l.max_entries past e h)

  -- A logger made for n entries holds, after any entries were logged, the last of them, in order: n
  -- of them, or one where n is less than 1, or all where they are fewer.
  pub log_all-last_of :
      (n : ℤ) (es : List (Entry V))
      → (log_all (new_logger n) es).entries ≡ last_of (new_logger {V = V} n).max_entries es
  unfolding new_logger
  log_all-last_of (pos n) es =
      log_window (new_logger (pos n)) [] es (ground arith)
        (sym (drop_nil (0 - (if ltb n 1 then 1 else n))))
  log_all-last_of (negsuc n) es =
      log_window (new_logger (negsuc n)) [] es (omega arith) (sym (drop_nil (0 - 1)))

  collect-take :
      (entries : List (Entry V)) (i n : ℕ)
      → i + n ≤ length entries
      → collect entries i n ≡ take n (drop i (reverse entries))
  unfolding collect
  collect-take entries i zero h = refl
  collect-take entries i (suc n) h =
      let (v, e) = get_elem?-some (reverse entries) i (omega (arith, length-reverse entries)) in
      rw (get_elem?-reverse entries i (omega arith), e, drop-get_elem? (reverse entries) i v e)
        (ap (◌∷◌ v) (collect-take entries (suc i) n (omega arith)))

  -- Recent returns the entries, newest first, n of them or all where they are fewer; none where n is
  -- not positive.
  pub recent-take :
      (l : Logger V) (n : ℕ)
      → (recent l (pos n) ≡ take n (reverse l.entries)) × (recent l (negsuc n) ≡ [])
  unfolding recent
  recent-take l n = (some_of n, refl)
    where
      positive : (k : ℕ) → (suc k == 0) ≡ false
      positive k = ground arith

      some_of : (k : ℕ) → recent l (pos k) ≡ take k (reverse l.entries)
      some_of zero = refl
      some_of (suc k) = elim (Bool-cases (ltb (length l.entries) (suc k))) [
        | inl few ↦
            rw (positive k, few, collect-take l.entries 0 (length l.entries) (omega arith))
              (take_all (length l.entries) (reverse l.entries)
                  (omega (arith, length-reverse l.entries))
                ∙ sym (
                    take_all (suc k) (reverse l.entries)
                      (omega (arith, length-reverse l.entries, ltb→lt _ _ few))))
        | inr many ↦
            rw
              (positive k, many, collect-take l.entries 0 (suc k) (omega (arith, not_ltb _ _ many)))
      ]
