-- ===== src/Files/Index/Has.antt =====
-- The index has each document under each of its terms.
use mathlib.Core.Path.{subst}
use xktmcp.Prelude.Text.{Text}
use xktmcp.Prelude.{
  Bool, ◌++◌, ==-refl, List, nat_eq, list_eq, [], ◌∷◌, true, refl, ◌≡◌, ◌≢◌, arith, Bool-cases, inl,
  inr, ◌==◌, list_beq_iff, ◌||◌,
}
use xktmcp.Files.Index
use xktmcp.Files.Index.{Bool, List, Text, names_of, document, FileSearchDocument}
use xktmcp.Files.Content.{listed}

pub listed-append :
    (e : Text) (xs ys : List Text) → listed e (xs ++ ys) ≡ (listed e xs || listed e ys)
listed-append e [] ys = refl
listed-append e (x ∷ xs) ys = ground (arith, listed-append e xs ys)

names_of-append_name :
    (n t u m : Text) (index : List (Text × List Text))
    → listed n (names_of t index) ≡ true
    → listed n (names_of t (Index.append_name u m index)) ≡ true
unfolding Index.append_name
names_of-append_name n t u m [] h = absurd (ground (arith, h))
names_of-append_name n t u m ((j, names) ∷ index) h = elim (Bool-cases (j == u)) [
  | inl here ↦ elim (Bool-cases (j == t)) [
    | inl same ↦ ground (arith, listed-append n names (m ∷ []), h, here, same)
    | inr other ↦ ground (arith, h, here, other)
  ]
  | inr there ↦ elim (Bool-cases (j == t)) [
    | inl same ↦ ground (arith, h, there, same)
    | inr other ↦ ground (arith, h, there, other, names_of-append_name n t u m index)
  ]
]

append_name_lem :
    (u m : Text) (index : List (Text × List Text))
    → listed m (names_of u (Index.append_name u m index)) ≡ true
unfolding Index.append_name
append_name_lem u m [] = ground (arith, ==-refl u, ==-refl m)
append_name_lem u m ((j, names) ∷ index) = elim (Bool-cases (j == u)) [
  | inl here ↦ ground (arith, here, listed-append m names (m ∷ []), ==-refl m)
  | inr there ↦ ground (arith, there, append_name_lem u m index)
]

abbrev Pass : Type 0
Pass = List Text × List (Text × List Text)

-- From `st` to `later`, what was seen or indexed stays so, and what is seen is indexed for `name`.
record Grows (name : Text) (st later : Pass) : Type 0 where
  seen : (t : Text) → listed t st.0 ≡ true → listed t later.0 ≡ true
  indexed : (n t : Text) → listed n (names_of t st.1) ≡ true → listed n (names_of t later.1) ≡ true
  good :
      ((t : Text) → listed t st.0 ≡ true → listed name (names_of t st.1) ≡ true)
      → (t : Text) → listed t later.0 ≡ true
      → listed name (names_of t later.1) ≡ true

add_term-Grows : (name term : Text) (st : Pass) → Grows name st (Index.add_term name term st)
unfolding Index.add_term
add_term-Grows name term st = elim (Bool-cases (term == [])) [
  | inl blank ↦ rw blank (record { seen = λ t h. h; indexed = λ n t h. h; good = λ g. g })
  | inr full ↦ elim (Bool-cases (listed term st.0)) [
    | inl old ↦ rw full (rw old (record { seen = λ t h. h; indexed = λ n t h. h; good = λ g. g }))
    | inr new ↦ rw full (
        rw new (record {
          seen = λ t h. ground (arith, h);
          indexed = λ n t h. names_of-append_name n t term name st.1 h;
          good = λ g t h. elim (Bool-cases (term == t)) [
            | inl same ↦
                subst (λ u. listed name (names_of u (Index.append_name term name st.1)) ≡ true)
                  (ground (arith, same, list_beq_iff term t)) (append_name_lem term name st.1)
            | inr other ↦
                names_of-append_name name t term name st.1 (g t (ground (arith, h, other)))
          ];
        }))
  ]
]

add_term-seen :
    (name term : Text) (st : Pass) → term ≢ [] → listed term (Index.add_term name term st).0 ≡ true
unfolding Index.add_term
add_term-seen name term st full = ground (arith, full, list_beq_iff term [], ==-refl term)

add_terms-Grows :
    (name : Text) (terms : List Text) (st : Pass) → Grows name st (Index.add_terms name terms st)
unfolding Index.add_terms
add_terms-Grows name [] st = record { seen = λ t h. h; indexed = λ n t h. h; good = λ g. g }
add_terms-Grows name (term ∷ terms) st =
    let one = add_term-Grows name term st in
    let rest = add_terms-Grows name terms (Index.add_term name term st) in
    record {
      seen = λ t h. rest.seen t (one.seen t h);
      indexed = λ n t h. rest.indexed n t (one.indexed n t h);
      good = λ g. rest.good (one.good g);
    }

add_terms-seen :
    (name t : Text) (terms : List Text) (st : Pass)
    → t ≢ []
    → listed t terms ≡ true
    → listed t (Index.add_terms name terms st).0 ≡ true
unfolding Index.add_terms
add_terms-seen name t [] st full h = absurd (ground (arith, h))
add_terms-seen name t (term ∷ terms) st full h = elim (Bool-cases (term == t)) [
  | inl same ↦ (add_terms-Grows name terms (Index.add_term name term st)).seen t (
      subst (λ u. listed u (Index.add_term name term st).0 ≡ true)
        (ground (arith, same, list_beq_iff term t))
        (add_term-seen name term st (ground (arith, full, same, list_beq_iff term t))))
  | inr other ↦
      add_terms-seen name t terms (Index.add_term name term st) full (ground (arith, h, other))
]

-- A document has a term among those of its name, its title or its content.
abbrev pub has_term : Text → FileSearchDocument → Bool
has_term t doc = listed t doc.name_terms || listed t doc.title_terms || listed t doc.content_terms

module _ (files : List (Text × FileSearchDocument)) where
  index_document-indexed :
      (name n t : Text) (index : List (Text × List Text))
      → listed n (names_of t index) ≡ true
      → listed n (names_of t (Index.index_document files name index)) ≡ true
  unfolding Index.index_document
  index_document-indexed name n t index h = elim (Bool-cases ((document files name).searchable)) [
    | inr hidden ↦ rw hidden h
    | inl searchable ↦
        let doc = document files name in
        let st1 = Index.add_terms name doc.name_terms ([], index) in
        let st2 = Index.add_terms name doc.title_terms st1 in
        rw searchable (
          (add_terms-Grows name doc.content_terms st2).indexed n t (
            (add_terms-Grows name doc.title_terms st1).indexed n t
              ((add_terms-Grows name doc.name_terms ([], index)).indexed n t h)))
  ]

  index_document-has_term :
      (name t : Text) (index : List (Text × List Text))
      → (document files name).searchable ≡ true
      → t ≢ []
      → has_term t (document files name) ≡ true
      → listed name (names_of t (Index.index_document files name index)) ≡ true
  unfolding Index.index_document
  index_document-has_term name t index searchable full has =
      let doc = document files name in
      let st1 = Index.add_terms name doc.name_terms ([], index) in
      let st2 = Index.add_terms name doc.title_terms st1 in
      let g1 = add_terms-Grows name doc.name_terms ([], index) in
      let g2 = add_terms-Grows name doc.title_terms st1 in
      let g3 = add_terms-Grows name doc.content_terms st2 in
      rw searchable (
        g3.good (g2.good (g1.good (λ u nothing. absurd (ground (arith, nothing))))) t
          (elim (Bool-cases (listed t doc.content_terms)) [
            | inl in_content ↦ add_terms-seen name t doc.content_terms st2 full in_content
            | inr outside ↦ g3.seen t (elim (Bool-cases (listed t doc.title_terms)) [
              | inl in_title ↦ add_terms-seen name t doc.title_terms st1 full in_title
              | inr left ↦ g2.seen t (
                  add_terms-seen name t doc.name_terms ([], index) full
                    (ground (arith, has, outside, left)))
            ])
          ]))

  index_documents-indexed :
      (names : List Text) (n t : Text) (index : List (Text × List Text))
      → listed n (names_of t index) ≡ true
      → listed n (names_of t (Index.index_documents files names index)) ≡ true
  unfolding Index.index_documents
  index_documents-indexed [] n t index h = h
  index_documents-indexed (name ∷ names) n t index h =
      index_documents-indexed names n t (Index.index_document files name index)
        (index_document-indexed name n t index h)

  -- The index of some documents has each searchable one of them under each of its terms.
  pub index_documents-has_term :
      (names : List Text) (name t : Text) (index : List (Text × List Text))
      → listed name names ≡ true
      → (document files name).searchable ≡ true
      → t ≢ []
      → has_term t (document files name) ≡ true
      → listed name (names_of t (Index.index_documents files names index)) ≡ true
  unfolding Index.index_documents
  index_documents-has_term [] name t index h searchable full has = absurd (ground (arith, h))
  index_documents-has_term (n ∷ names) name t index h searchable full has =
      elim (Bool-cases (n == name)) [
        | inl same ↦
            let e : name ≡ n = ground (arith, same, list_beq_iff n name) in
            index_documents-indexed names name t (Index.index_document files n index) (
              subst (λ m. listed name (names_of t (Index.index_document files m index)) ≡ true) e
                (index_document-has_term name t index searchable full has))
        | inr other ↦
            index_documents-has_term names name t (Index.index_document files n index)
              (ground (arith, h, other)) searchable full has
      ]
