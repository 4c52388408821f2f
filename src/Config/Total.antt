-- ===== src/Config/Total.antt =====
-- The fuel of the JSON reader is enough.
use audit_forwarder.Prelude.{
  ℕ, zero, suc, ◌+◌, ◌≤◌, ◌<◌, ◌≡◌, refl, arith, true, false, Option, none, some, [], ◌∷◌, length,
  Text, codes,
}
use audit_forwarder.Config.{
  ConfigValue, Values, Fields, Floats, list, map, null, bool, nil, emplace_field, end,
}
use audit_forwarder.Config.Json.{
  Parsed, ok, err, stuck, skip_ws, parse_json_string, consume, Lead, lead_of, quote, brace, bracket,
  letter_t, letter_f, letter_n, other, snoc, array_items, parse_json_array, expected_bracket,
  expected_brace, object_items, parse_json_object, value_at, parse_json_value, parse_minimal_json,
}
use audit_forwarder.Config.Ends.{
  Ends, wider, later, length-skip_ws, length-consume, parse_json_string-Ends,
  parse_json_number-Ends, parse_json_literal-Ends, as_value-Ends, closed-Ends,
}

-- The readers of a composite value, over a reader of the values inside that ends on texts below a
-- bound.
module _ (value : Text → Parsed ConfigValue) where
  EndsBelow : ℕ → Type 0
  EndsBelow m = (t : Text) → length t < m → Ends (length t) (value t)

  array_items-Ends :
      (m n : ℕ) (arr : Values) (s : Text)
      → EndsBelow m
      → length s < n
      → length s < m
      → Ends (length s) (array_items value n arr s)
  unfolding array_items EndsBelow Ends
  array_items-Ends m zero arr s ends fuel low = absurd (omega arith)
  array_items-Ends m (suc n) arr s ends fuel low =
      go (λ v. array_items-Ends m n (snoc arr v)) (value s) refl (ends s low)
    where
      Onward : Type 0
      Onward =
          (v : ConfigValue) (t : Text)
          → EndsBelow m
          → length t < n
          → length t < m
          → Ends (length t) (array_items value n (snoc arr v) t)

      behind_item :
          Onward
          → (v : ConfigValue) (rest : Text) → length rest ≤ length s
          → (o : Option Text) → consume b',' rest ≡ o
          → value s ≡ ok v rest
          → Ends (length s) (array_items value (suc n) arr s)
      behind_item ih v rest le none e here =
          rw (Ends, array_items, here, e)
            (wider _ _ _ le (closed-Ends b']' expected_bracket (list (snoc arr v)) rest))
      behind_item ih v rest le (some more) e here =
          let less = length-consume b',' rest more e in
          rw (Ends, array_items, here, e)
            (wider _ _ _ (omega arith) (ih v more ends (omega arith) (omega arith)))

      go :
          Onward
          → (p : Parsed ConfigValue) → value s ≡ p
          → Ends (length s) p
          → Ends (length s) (array_items value (suc n) arr s)
      go ih (err e) here h = rw (Ends, array_items, here) tt
      go ih stuck here h = absurd h
      go ih (ok v rest) here h = behind_item ih v rest h (consume b',' rest) refl here

  parse_json_array-Ends :
      (m : ℕ) (s : Text) → EndsBelow m → length s < m → Ends (length s) (parse_json_array value s)
  unfolding parse_json_array Ends
  parse_json_array-Ends m s ends low = go (consume b']' s) refl
    where
      go : (o : Option Text) → consume b']' s ≡ o → Ends (length s) (parse_json_array value s)
      go (some rest) e =
          rw (Ends, parse_json_array, e) (omega (arith, length-consume b']' s rest e))
      go none e =
          rw (Ends, parse_json_array, e)
            (array_items-Ends m (length s + 1) nil s ends (omega arith) low)

  object_items-Ends :
      (m n : ℕ) (obj : Fields) (s : Text)
      → EndsBelow m
      → length s < n
      → length s < m
      → Ends (length s) (object_items value n obj s)
  unfolding object_items EndsBelow Ends
  object_items-Ends m zero obj s ends fuel low = absurd (omega arith)
  object_items-Ends m (suc n) obj s ends fuel low =
      go (λ o. object_items-Ends m n o) (parse_json_string s) refl (parse_json_string-Ends s)
    where
      Result : Type 0
      Result = Ends (length s) (object_items value (suc n) obj s)

      Onward : Type 0
      Onward =
          (o : Fields) (t : Text)
          → EndsBelow m
          → length t < n
          → length t < m
          → Ends (length t) (object_items value n o t)

      behind_value :
          Onward
          → (k rest after last : Text) (v : ConfigValue) → length last < length s
          → (o : Option Text) → consume b',' last ≡ o
          → parse_json_string s ≡ ok k rest
          → consume b':' rest ≡ some after
          → value after ≡ ok v last
          → Result
      behind_value ih k rest after last v less none e key colon here =
          rw (Result, Ends, object_items, key, colon, here, e)
            (wider _ _ _ (omega (arith, less))
              (closed-Ends b'}' expected_brace (map (emplace_field obj k v)) last))
      behind_value ih k rest after last v less (some more) e key colon here =
          let shorter = length-consume b',' last more e in
          rw (Result, Ends, object_items, key, colon, here, e)
            (wider _ _ _ (omega arith)
              (ih (emplace_field obj k v) more ends (omega arith) (omega arith)))

      behind_colon :
          Onward
          → (k rest after : Text) → length after < length s
          → (p : Parsed ConfigValue) → value after ≡ p
          → Ends (length after) p
          → parse_json_string s ≡ ok k rest
          → consume b':' rest ≡ some after
          → Result
      behind_colon ih k rest after less (err x) here h key colon =
          rw (Result, Ends, object_items, key, colon, here) tt
      behind_colon ih k rest after less stuck here h key colon = absurd h
      behind_colon ih k rest after less (ok v last) here h key colon =
          behind_value ih k rest after last v (omega arith) (consume b',' last) refl key colon here

      behind_key :
          Onward
          → (k rest : Text) → length rest ≤ length s
          → (o : Option Text) → consume b':' rest ≡ o
          → parse_json_string s ≡ ok k rest
          → Result
      behind_key ih k rest le none e key = rw (Result, Ends, object_items, key, e) tt
      behind_key ih k rest le (some after) e key =
          let less : length after < length s = omega (arith, length-consume b':' rest after e) in
          behind_colon ih k rest after less (value after) refl (ends after (omega arith)) key e

      go : Onward → (p : Parsed Text) → parse_json_string s ≡ p → Ends (length s) p → Result
      go ih (err x) here h = rw (Result, Ends, object_items, here) tt
      go ih stuck here h = absurd h
      go ih (ok k rest) here h = behind_key ih k rest h (consume b':' rest) refl here

  parse_json_object-Ends :
      (m : ℕ) (s : Text) → EndsBelow m → length s < m → Ends (length s) (parse_json_object value s)
  unfolding parse_json_object Ends
  parse_json_object-Ends m s ends low = go (consume b'}' s) refl
    where
      go : (o : Option Text) → consume b'}' s ≡ o → Ends (length s) (parse_json_object value s)
      go (some rest) e =
          rw (Ends, parse_json_object, e) (omega (arith, length-consume b'}' s rest e))
      go none e =
          rw (Ends, parse_json_object, e)
            (object_items-Ends m (length s + 1) end s ends (omega arith) low)

  value_at-Ends :
      (fl : Floats) (m : ℕ) (s : Text)
      → EndsBelow m
      → length s ≤ m
      → Ends (length s) (value_at fl value s)
  unfolding value_at Ends
  value_at-Ends fl m [] ends le = tt
  value_at-Ends fl m (c ∷ s) ends le = go (lead_of c) refl
    where
      go : (l : Lead) → lead_of c ≡ l → Ends (length (c ∷ s)) (value_at fl value (c ∷ s))
      go quote e =
          rw (Ends, value_at, e)
            (as_value-Ends (length (c ∷ s)) (parse_json_string (c ∷ s))
              (parse_json_string-Ends (c ∷ s)))
      go brace e =
          rw (Ends, value_at, e)
            (later s (parse_json_object value s) (parse_json_object-Ends m s ends (omega arith)))
      go bracket e =
          rw (Ends, value_at, e)
            (later s (parse_json_array value s) (parse_json_array-Ends m s ends (omega arith)))
      go letter_t e =
          rw (Ends, value_at, e) (parse_json_literal-Ends (c ∷ s) (codes "true") (bool true))
      go letter_f e =
          rw (Ends, value_at, e) (parse_json_literal-Ends (c ∷ s) (codes "false") (bool false))
      go letter_n e = rw (Ends, value_at, e) (parse_json_literal-Ends (c ∷ s) (codes "null") null)
      go other e = rw (Ends, value_at, e) (parse_json_number-Ends fl (c ∷ s))

parse_json_value-Ends :
    (fl : Floats) (f : ℕ) (s : Text) → length s < f → Ends (length s) (parse_json_value fl f s)
unfolding parse_json_value EndsBelow
parse_json_value-Ends fl zero s low = absurd (omega arith)
parse_json_value-Ends fl (suc f) s low = wider _ _ _ (length-skip_ws s) (
    value_at-Ends (λ t. parse_json_value fl f t) fl f (skip_ws s)
      (λ t h. parse_json_value-Ends fl f t h) (omega (arith, length-skip_ws s)))

-- Whatever the text and however doubles are read, the reader comes to an end with a value or an
-- error within the fuel, and a value leaves no more text than there was.
pub parse_minimal_json-Ends :
    (fl : Floats) (content : Text) → Ends (length content) (parse_minimal_json fl content)
unfolding parse_minimal_json
parse_minimal_json-Ends fl content =
    parse_json_value-Ends fl (length content + 1) content (omega arith)
