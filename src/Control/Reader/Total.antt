-- ===== src/Control/Reader/Total.antt =====
-- The fuel of the reader of src/control_server.cpp.
use Prim.Native.Char.{Char, code}
use ocudu_channel.Common.{
  ℕ, zero, suc, ◌+◌, ◌*◌, ◌≤◌, ◌<◌, ◌≡◌, ◌≢◌, refl, String, ◌==◌, Option, none, some, Floats,
  Result, ok, err, ◌>>=◌, if_both, arith,
}
use ocudu_channel.Control.Json.{
  Fields, Items, end, nil, JsonError, unexpected_end, expected, unsupported_escape,
  expected_separator, expected_value, invalid_number, wrong_kind, out_of_fuel, emplace_field,
  push_item,
}
use ocudu_channel.Control.Reader.{
  skip_ws, take_char, expect, read_string, after_word, number_chars, as_double, read_digits,
  read_false, read_atom, after_member, after_item, object_by, array_by, value_by, read_members,
  read_value, read_items, size, parse_body, quote, open_brace, close_brace, open_bracket,
  close_bracket, comma, colon,
}
use ocudu_channel.Control.Reader.Shrink.{
  Within, Within-le, Within-bind, Shorter-bind, peek-bind, size-skip_ws, expect-Shorter,
  take_char-Within, read_string-Within, after_word-size, size-number_chars,
}

module _ {F G : Type 0} (fl : Floats F G) where
  as_double-Within :
      (k : ℕ) (o : Option F) (rest : String) → size rest < k → Within k (as_double fl o rest)
  unfolding as_double
  as_double-Within k none rest h = tt
  as_double-Within k (some n) rest h = h

  read_digits-Within :
      (k : ℕ) (d : String × String) → size (d.0) + size (d.1) ≡ k → Within k (read_digits fl d)
  unfolding read_digits size
  read_digits-Within k (String.[], rest) h = tt
  read_digits-Within k (String.◌∷◌ c digits, rest) h =
      as_double-Within k (fl.stod (String.◌∷◌ c digits)) rest (omega arith)

  read_false-Within :
      (s : String) (o : Option String)
      → ((rest : String) → o ≡ some rest → size rest < size s)
      → Within (size s) (read_false fl s o)
  unfolding read_false
  read_false-Within s (some rest) h = h rest refl
  read_false-Within s none h = read_digits-Within (size s) (number_chars s) (size-number_chars s)

  read_atom-Within :
      (s : String) (o : Option String)
      → ((rest : String) → o ≡ some rest → size rest < size s)
      → Within (size s) (read_atom fl s o)
  unfolding read_atom size
  read_atom-Within s (some rest) h = h rest refl
  read_atom-Within s none h =
      read_false-Within s (after_word "false" s)
        (λ rest e. let n : size rest + 5 ≡ size s = after_word-size "false" s e in omega (arith, n))

  after_member-Within :
      (k : ℕ) (again : String → Result JsonError (Fields F × String)) (out : Fields F) (c : Char)
      (s : String)
      → size s < k
      → Within k (again s)
      → Within k (after_member fl again out (c, s))
  unfolding after_member
  after_member-Within k again out c s h w =
      if_both (Within k) (code c == comma) w (if_both (Within k) (code c == close_brace) h tt)

  after_item-Within :
      (k : ℕ) (again : String → Result JsonError (Items F × String)) (xs : Items F) (c : Char)
      (s : String)
      → size s < k
      → Within k (again s)
      → Within k (after_item fl again xs (c, s))
  unfolding after_item
  after_item-Within k again xs c s h w =
      if_both (Within k) (code c == comma) w (if_both (Within k) (code c == close_bracket) h tt)

  -- A loop that is within its bound on every text shorter than `s`.
  abbrev LoopOk : (A : Type 0) → String → (String → Result JsonError (A × String)) → Type 0
  LoopOk A s loop = (t : String) → size t < size s → Within (size t) (loop t)

  object_by-Within :
      (members : String → Result JsonError (Fields F × String)) (s : String)
      → LoopOk (Fields F) s members
      → Within (size s) (object_by fl members s)
  unfolding object_by
  object_by-Within members s h =
      Shorter-bind (size (skip_ws s)) (size s) (expect open_brace (skip_ws s)) _
        (expect-Shorter open_brace (skip_ws s))
        (λ s1 k1. peek-bind (size s) (skip_ws s1) _ (λ c.
          let small : size (skip_ws s1) < size s =
            omega (arith, k1, size-skip_ws s, size-skip_ws s1) in
          if_both (Within (size s)) (c == close_brace)
            (Shorter-bind (size (skip_ws s1)) (size s) (expect close_brace (skip_ws s1)) _
              (expect-Shorter close_brace (skip_ws s1)) (λ s2 k2. omega (arith, small, k2)))
            (Within-le (size (skip_ws s1)) (size s) (members (skip_ws s1)) (omega (arith, small))
              (h (skip_ws s1) small))))

  array_by-Within :
      (items : String → Result JsonError (Items F × String)) (s : String)
      → LoopOk (Items F) s items
      → Within (size s) (array_by fl items s)
  unfolding array_by
  array_by-Within items s h =
      Shorter-bind (size s) (size s) (expect open_bracket s) _ (expect-Shorter open_bracket s)
        (λ s1 k1. peek-bind (size s) (skip_ws s1) _ (λ c.
          let small : size (skip_ws s1) < size s = omega (arith, k1, size-skip_ws s1) in
          if_both (Within (size s)) (c == close_bracket)
            (Shorter-bind (size (skip_ws s1)) (size s) (expect close_bracket (skip_ws s1)) _
              (expect-Shorter close_bracket (skip_ws s1)) (λ s2 k2. omega (arith, small, k2)))
            (Within-bind (size (skip_ws s1)) (size s) (items (skip_ws s1)) _ (h (skip_ws s1) small)
              (λ xs s2 k2. omega (arith, small, k2)))))

  value_by-Within :
      (members : String → Result JsonError (Fields F × String))
      (items : String → Result JsonError (Items F × String)) (s : String) (c : ℕ)
      → LoopOk (Fields F) s members
      → LoopOk (Items F) s items
      → Within (size s) (value_by fl members items s c)
  unfolding value_by size
  value_by-Within members items s c hm hi =
      if_both (Within (size s)) (c == quote)
        (Within-bind (size s) (size s) (read_string s) _ (read_string-Within s) (λ t s1 k. k))
        (if_both (Within (size s)) (c == open_brace)
          (Within-bind (size s) (size s) (object_by fl members s) _ (object_by-Within members s hm)
            (λ o s1 k. k))
          (if_both (Within (size s)) (c == open_bracket) (array_by-Within items s hi) (
            read_atom-Within s (after_word "true" s) (λ rest e.
              let n : size rest + 4 ≡ size s = after_word-size "true" s e in omega (arith, n)))))

  mutual
    unfolding read_members read_value read_items

    members-Within :
        (n : ℕ) (out : Fields F) (s : String)
        → 2 * size s + 1 ≤ n
        → Within (size s) (read_members fl n out s)
    members-Within zero out s h = absurd (omega arith)
    members-Within (suc n) out s h =
        Within-bind (size (skip_ws s)) (size s) (read_string (skip_ws s)) _
          (read_string-Within (skip_ws s))
          (λ key s1 k1.
            Shorter-bind (size (skip_ws s1)) (size s) (expect colon (skip_ws s1)) _
              (expect-Shorter colon (skip_ws s1))
              (λ s2 k2.
                let l2 : size (skip_ws s2) < size s =
                  omega (arith, k1, k2, size-skip_ws s, size-skip_ws s1, size-skip_ws s2) in
                Within-bind (size (skip_ws s2)) (size s) (read_value fl n (skip_ws s2)) _
                  (value-Within n (skip_ws s2) (omega (arith, l2, h)))
                  (λ v s3 k3.
                    Within-bind (size (skip_ws s3)) (size s) (take_char (skip_ws s3)) _
                      (take_char-Within (skip_ws s3))
                      (λ c s4 k4.
                        let l4 : size s4 < size s = omega (arith, l2, k3, k4, size-skip_ws s3) in
                        after_member-Within (size s) (read_members fl n (emplace_field key v out))
                          (emplace_field key v out) c s4 l4
                          (Within-le (size s4) (size s)
                            (read_members fl n (emplace_field key v out) s4) (omega (arith, l4))
                            (members-Within n (emplace_field key v out) s4
                              (omega (arith, l4, h))))))))

    value-Within : (n : ℕ) (s : String) → 2 * size s + 1 ≤ n → Within (size s) (read_value fl n s)
    value-Within zero s h = absurd (omega arith)
    value-Within (suc n) s h = peek-bind (size s) (skip_ws s) _ (λ c.
        Within-le (size (skip_ws s)) (size s)
          (value_by fl (read_members fl n end) (read_items fl n nil) (skip_ws s) c) (size-skip_ws s)
          (value_by-Within (read_members fl n end) (read_items fl n nil) (skip_ws s) c
            (λ t k. members-Within n end t (omega (arith, k, h, size-skip_ws s)))
            (λ t k. items-Within n nil t (omega (arith, k, h, size-skip_ws s)))))

    items-Within :
        (n : ℕ) (xs : Items F) (s : String)
        → 2 * size s + 2 ≤ n
        → Within (size s) (read_items fl n xs s)
    items-Within zero xs s h = absurd (omega arith)
    items-Within (suc n) xs s h =
        Within-bind (size (skip_ws s)) (size s) (read_value fl n (skip_ws s)) _
          (value-Within n (skip_ws s) (omega (arith, h, size-skip_ws s)))
          (λ v s1 k1.
            Within-bind (size (skip_ws s1)) (size s) (take_char (skip_ws s1)) _
              (take_char-Within (skip_ws s1))
              (λ c s2 k2.
                let l2 : size s2 < size s =
                  omega (arith, k1, k2, size-skip_ws s, size-skip_ws s1) in
                after_item-Within (size s) (read_items fl n (push_item v xs)) (push_item v xs) c s2
                  l2
                  (Within-le (size s2) (size s) (read_items fl n (push_item v xs) s2)
                    (omega (arith, l2))
                    (items-Within n (push_item v xs) s2 (omega (arith, l2, h))))))

  -- Every request body is parsed, or refused with one of the errors of the code: the loops end.
  pub parse_body_total : (s : String) → parse_body fl s ≢ err out_of_fuel
  unfolding parse_body
  parse_body_total s e =
      ended (object_by fl (read_members fl (2 * size s + 2) end) s)
        (object_by-Within (read_members fl (2 * size s + 2) end) s
          (λ t k. members-Within (2 * size s + 2) end t (omega (arith, k))))
        e
    where
      ended :
          (m : Result JsonError (Fields F × String))
          → Within (size s) m
          → (m >>= λ (fields, rest). ok fields) ≢ err out_of_fuel
      ended (ok (fields, rest)) w e' = cc
      ended (err out_of_fuel) w e' = w
      ended (err unexpected_end) w e' = cc
      ended (err (expected c)) w e' = cc
      ended (err unsupported_escape) w e' = cc
      ended (err expected_separator) w e' = cc
      ended (err expected_value) w e' = cc
      ended (err invalid_number) w e' = cc
      ended (err (wrong_kind key)) w e' = cc
