-- ===== src/Config/Load/Loop/RoundTrip.antt =====
-- The `links:` section of a file, printed and read by `load_config_file` of src/config.cpp.
use ocudu_channel.Common.{
  ◌≡◌, refl, sym, subst, arith, ℕ, suc, true, Option, some, List, [], ◌∷◌, ◌++◌, append-nil,
  append_assoc, String, All, Floats, Result, ok,
}
use ocudu_channel.Config.{LinkConfig}
use ocudu_channel.Config.Text.{
  is_space, empty_text, trim, trim_left, trim_right, strip_comment, cons_trimmed, split_colon,
  indent_of, parse_double, whole_double,
}
use ocudu_channel.Config.Text.Words.{
  join, graphic, no_colon, starts_word, is_word, is_key, split_key_value-entry,
}
use ocudu_channel.Config.Load.{
  in_links, leading_tab, is_flow, update_last, of_value, is_item, item_text, apply_link,
  default_link,
}
use ocudu_channel.Config.Load.Reader.{Reader, section_line, change_links, link_line}
use ocudu_channel.Config.Load.Loop.{in_section, step_line, read_lines}
use ocudu_channel.Config.Load.Loop.Printed.{
  plain_line, item_line, trim-entry, is_item-entry, step_line-plain, step_line-item,
}

update_last-append :
    {A E : Type 0} (f : A → Result E A) (xs : List A) (x : A) {y : A}
    → f x ≡ ok y
    → update_last f (xs ++ x ∷ []) ≡ ok (xs ++ y ∷ [])
unfolding update_last
update_last-append f [] x e = rw e refl
update_last-append f (z ∷ []) x e = rw e refl
update_last-append f (z ∷ u ∷ xs) x e = rw (update_last-append f (u ∷ xs) x e) refl

module _ {F : Type 0} where
  -- The state in a link of the section.
  abbrev with_links : Reader F → List (LinkConfig F) → Reader F
  with_links st ls = record st { config = record (st.config) { links = ls }; has_link = true }

module _ {F G : Type 0} (fl : Floats F G) (stod : String → Option (F × String)) where
  module _ (n : ℕ) (key value : String) (st : Reader F) (k : is_key key ≡ true)
      (w : is_word value ≡ true) (here : st.section ≡ in_links) where
    new_link :
        {l : LinkConfig F}
        → apply_link stod key value (default_link fl) ≡ ok l
        → step_line fl stod n (item_line key value) st
          ≡ ok (with_links st (st.config.links ++ l ∷ []))
    unfolding in_section link_line join is_item item_text change_links is_key of_value
    new_link e =
        rw
          (
            step_line-item key value k w fl stod n st,
            here,
            trim-entry key value k w,
            split_key_value-entry key value (ground arith) (ground arith) w,
            update_last-append (apply_link stod key value) st.config.links (default_link fl) e,
          )
          refl

    old_link :
        (ls : List (LinkConfig F)) (l : LinkConfig F) {l' : LinkConfig F}
        → apply_link stod key value l ≡ ok l'
        → step_line fl stod n (plain_line key value) (with_links st (ls ++ l ∷ []))
          ≡ ok (with_links st (ls ++ l' ∷ []))
    unfolding in_section link_line change_links is_key of_value
    old_link ls l e =
        rw
          (
            step_line-plain key value k w fl stod n (with_links st (ls ++ l ∷ [])),
            here,
            is_item-entry key value k w,
            split_key_value-entry key value (ground arith) (ground arith) w,
            update_last-append (apply_link stod key value) ls l e,
          )
          refl

from_key : is_key "from" ≡ true
unfolding is_key graphic is_space no_colon starts_word
from_key = refl

to_key : is_key "to" ≡ true
unfolding is_key graphic is_space no_colon starts_word
to_key = refl

model_key : is_key "model" ≡ true
unfolding is_key graphic is_space no_colon starts_word
model_key = refl

delay_key : is_key "propagation_delay_samples" ≡ true
unfolding is_key graphic is_space no_colon starts_word
delay_key = refl

module _ {F : Type 0} (print : F → String) where
  -- A link as lines, and the links.
  unfoldable pub print_link : LinkConfig F → List String → List String
  print_link l rest =
      item_line "from" l.from
      ∷ plain_line "to" l.to
      ∷ plain_line "model" l.model
      ∷ plain_line "propagation_delay_samples" (print l.propagation_delay_samples)
      ∷ rest

  unfoldable pub print_links : List (LinkConfig F) → List String
  print_links [] = []
  print_links (l ∷ ls) = print_link l (print_links ls)

module _ {F G : Type 0} (fl : Floats F G) (stod : String → Option (F × String))
    (print : F → String) where
  -- The link's names and its delay are printed as words, and the delay is read back.
  pub record Printable (l : LinkConfig F) : Type 0 where
    pub from : is_word l.from ≡ true
    pub to : is_word l.to ≡ true
    pub model : is_word l.model ≡ true
    pub delay : is_word (print l.propagation_delay_samples) ≡ true
    pub read_back :
        stod (print l.propagation_delay_samples) ≡ some (l.propagation_delay_samples, "")

  parse_double-end :
      (key : String) {value : String} {v : F}
      → stod value ≡ some (v, "")
      → parse_double stod value key ≡ ok v
  unfolding parse_double whole_double empty_text
  parse_double-end key e = rw e refl

  open_links :
      (n : ℕ) (st : Reader F)
      → (st' : Reader F) × (step_line fl stod n "links:" st ≡ ok st')
        × (st'.section ≡ in_links)
        × (st'.config ≡ st.config)
  unfolding step_line section_line empty_text trim trim_right trim_left strip_comment is_space
      cons_trimmed leading_tab is_flow is_item split_colon indent_of
  open_links n st = (_, refl, refl, refl)

  read_link :
      (n : ℕ) (l : LinkConfig F) (rest : List String) (st : Reader F)
      → Printable l
      → st.section ≡ in_links
      → read_lines fl stod n (print_link print l rest) st
        ≡ read_lines fl stod
            (suc (suc (suc (suc n))))
            rest
            (with_links st (st.config.links ++ l ∷ []))
  unfolding read_lines print_link apply_link
  read_link n l rest st p here =
      let links = st.config.links in
      let l1 = record (default_link fl) { from = l.from } in
      let l2 = record l1 { to = l.to } in
      let l3 = record l2 { model = l.model } in
      rw
        (
          new_link fl stod n "from" l.from st from_key p.from here {l = l1} refl,
          old_link fl stod (suc n) "to" l.to st to_key p.to here links l1 {l' = l2} refl,
          old_link fl stod (suc (suc n)) "model" l.model st model_key p.model here links l2
              {l' = l3} refl,
          old_link fl stod (suc (suc (suc n))) "propagation_delay_samples"
              (print l.propagation_delay_samples) st delay_key p.delay here links l3 {l' = l}
              (rw (parse_double-end "propagation_delay_samples" p.read_back) refl),
        )
        refl

  read_links :
      (n : ℕ) (ls : List (LinkConfig F)) (st : Reader F)
      → All Printable ls
      → st.section ≡ in_links
      → (st' : Reader F) × (read_lines fl stod n (print_links print ls) st ≡ ok st')
        × (st'.config ≡ record (st.config) { links = st.config.links ++ ls })
  unfolding print_links read_lines
  read_links n [] st p here = (st, refl, rw (append-nil st.config.links) refl)
  read_links n (l ∷ ls) st p here =
      let after = with_links st (st.config.links ++ l ∷ []) in
      let (st', read, same) = read_links (suc (suc (suc (suc n)))) ls after p.1 here in
      (
        st',
        rw (read_link n l (print_links print ls) st p.0 here) read,
        rw (sym (append_assoc st.config.links (l ∷ []) ls)) same,
      )

  -- Reading the heading `links:` and the printed links adds these links to the topology and changes
  -- nothing else of it, where each link's names, and its delay as printed, are words, and std::stod
  -- reads the printed delay back to its end. A word is not empty, has neither a space nor a '#', and
  -- begins with neither a quote nor an opening bracket.
  pub read_lines-print_links :
      (n : ℕ) (ls : List (LinkConfig F)) (st : Reader F)
      → All Printable ls
      → (st' : Reader F) × (read_lines fl stod n ("links:" ∷ print_links print ls) st ≡ ok st')
        × (st'.config ≡ record (st.config) { links = st.config.links ++ ls })
  unfolding read_lines
  read_lines-print_links n ls st p =
      let (opened, heading, here, same) = open_links n st in
      let (st', read, added) = read_links (suc n) ls opened p here in
      (
        st',
        rw heading read,
        subst (λ c. st'.config ≡ record c { links = c.links ++ ls }) same added,
      )
