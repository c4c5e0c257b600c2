-- ===== src/Files/Tokenized/Complete.antt =====
-- The candidates leave out no match.
use mathlib.Core.Path.{sym, subst}
use xktmcp.Prelude.Text.{codes, Text}
use xktmcp.Files.Tokenized.{contains, codes, not, keep, Bool, List, Text}
use xktmcp.Prelude.{
  ◌&&◌, if◌then◌else◌, not, ◌≢◌, sym, ap, keep, Bool, ◌∙◌, ==-refl, List, nat_eq, list_eq, [], ◌∷◌,
  true, refl, ◌≡◌, arith, Bool-cases, inl, inr, ◌==◌, list_beq_iff, ◌||◌,
}
use xktmcp.Files.Index
use xktmcp.Files.Tokenized
use xktmcp.Files.Index.{names_of, document, FileSearchDocument, FileSearchIndex}
use xktmcp.Files.Index.Has.{index_documents-has_term, has_term, listed-append}
use xktmcp.Files.Content.{listed}

term_in-listed :
    (want : Text) (terms : List Text) → Index.term_in terms want ≡ true → listed want terms ≡ true
unfolding Index.term_in
term_in-listed want [] h = absurd (ground (arith, h))
term_in-listed want (t ∷ terms) h = ground (arith, h, term_in-listed want terms)

has_any_term-some :
    (terms wants : List Text)
    → Index.has_any_term terms wants ≡ true
    → (want : Text) × (listed want wants ≡ true) × (Index.term_in terms want ≡ true)
unfolding Index.has_any_term
has_any_term-some terms [] h = absurd (ground (arith, h))
has_any_term-some terms (w ∷ wants) h = elim (Bool-cases (Index.term_in terms w)) [
  | inl here ↦ (w, ground (arith, ==-refl w), here)
  | inr there ↦
      let (want, l, t) = has_any_term-some terms wants (ground (arith, h, there)) in
      (want, ground (arith, l), t)
]

listed-keep :
    (x : Text) (p : Text → Bool) (xs : List Text)
    → listed x xs ≡ true
    → p x ≡ true
    → listed x (keep p xs) ≡ true
listed-keep x p [] h px = absurd (ground (arith, h))
listed-keep x p (y ∷ xs) h px = elim (Bool-cases (y == x)) [
  | inl same ↦
      let e : x ≡ y = ground (arith, same, list_beq_iff y x) in
      rw (ap p (sym e) ∙ px) (ground (arith, same))
  | inr other ↦ elim (Bool-cases (p y)) [
    | inl stays ↦ rw stays (ground (arith, other, listed-keep x p xs (ground (arith, h, other)) px))
    | inr goes ↦ rw goes (listed-keep x p xs (ground (arith, h, other)) px)
  ]
]

module _ (index : FileSearchIndex) (name want : Text)
    (found : listed name (names_of want index.term_index) ≡ true) where
  term_candidates-listed :
      (terms : List Text)
      → listed want terms ≡ true
      → listed name (Tokenized.term_candidates index terms) ≡ true
  unfolding Tokenized.term_candidates
  term_candidates-listed [] h = absurd (ground (arith, h))
  term_candidates-listed (t ∷ terms) h = elim (Bool-cases (t == want)) [
    | inl same ↦
        let e : want ≡ t = ground (arith, same, list_beq_iff t want) in
        listed-append name (names_of t index.term_index) (Tokenized.term_candidates index terms)
        ∙ rw (ap (λ u. listed name (names_of u index.term_index)) (sym e) ∙ found) refl
    | inr other ↦ ground (
      arith,
      listed-append name (names_of t index.term_index) (Tokenized.term_candidates index terms),
      term_candidates-listed terms (ground (arith, h, other)),
    )
  ]

  title_candidates-listed :
      (terms : List Text)
      → (Index.term_in (document index.files name).name_terms want
          || Index.term_in (document index.files name).title_terms want)
        ≡ true
      → listed want terms ≡ true
      → listed name (Tokenized.title_candidates index terms) ≡ true
  unfolding Tokenized.title_candidates
  title_candidates-listed [] titled h = absurd (ground (arith, h))
  title_candidates-listed (t ∷ terms) titled h =
      let p = λ (u : Text) (n : Text).
        Index.term_in (document index.files n).name_terms u
        || Index.term_in (document index.files n).title_terms u in
      elim (Bool-cases (t == want)) [
        | inl same ↦
            let e : want ≡ t = ground (arith, same, list_beq_iff t want) in
            listed-append name (keep (p t) (names_of t index.term_index))
              (Tokenized.title_candidates index terms)
            ∙ rw
                (subst (λ u. listed name (keep (p u) (names_of u index.term_index)) ≡ true) e
                  (listed-keep name (p want) (names_of want index.term_index) found titled))
                refl
        | inr other ↦ ground (
          arith,
          listed-append name (keep (p t) (names_of t index.term_index))
              (Tokenized.title_candidates index terms),
          title_candidates-listed terms titled (ground (arith, h, other)),
        )
      ]

-- Why a document matches: its name or title contains the query, or it has one of the terms where the
-- search looks.
pub data Reason (doc : FileSearchDocument) (query : Text) (terms : List Text) (search_in : Text)
    : Type 0 where
  literal :
      (not (search_in == codes "content")
          && (contains doc.lower_name query || contains doc.lower_title query))
        ≡ true
      → Reason doc query terms search_in
  titled :
      (want : Text)
      → listed want terms ≡ true
      → (Index.term_in doc.name_terms want || Index.term_in doc.title_terms want) ≡ true
      → Reason doc query terms search_in
  content :
      (want : Text)
      → listed want terms ≡ true
      → not (search_in == codes "title") ≡ true
      → Index.term_in doc.content_terms want ≡ true
      → Reason doc query terms search_in

pub document_matches-Reason :
    (doc : FileSearchDocument) (query : Text) (terms : List Text) (search_in : Text)
    → ((Index.document_matches doc query terms search_in).0
        || (Index.document_matches doc query terms search_in).1)
      ≡ true
    → (doc.searchable ≡ true) × Reason doc query terms search_in
unfolding Index.document_matches
document_matches-Reason doc query terms search_in h = (
  ground (arith, h),
  elim (Bool-cases (
      not (search_in == codes "content")
      && (contains doc.lower_name query || contains doc.lower_title query))) [
        | inl lit ↦ literal lit
        | inr other ↦ elim (Bool-cases (Index.has_any_term doc.name_terms terms)) [
          | inl by_name ↦
              let (want, l, t) = has_any_term-some doc.name_terms terms by_name in
              titled want l (ground (arith, t))
          | inr no_name ↦ elim (Bool-cases (Index.has_any_term doc.title_terms terms)) [
            | inl by_title ↦
                let (want, l, t) = has_any_term-some doc.title_terms terms by_title in
                titled want l (ground (arith, t))
            | inr no_title ↦
                let (want, l, t) =
                  has_any_term-some doc.content_terms terms
                    (ground (arith, h, other, no_name, no_title)) in
                content want l (ground (arith, h, other, no_name, no_title)) t
          ]
        ]
      ],
)

module _ (files : List (Text × FileSearchDocument)) (query : Text) (terms : List Text)
    (search_in name : Text) (known : listed name (Index.build_file_search_index files).paths ≡ true)
    (searchable : (document files name).searchable ≡ true)
    (full : (t : Text) → listed t terms ≡ true → t ≢ []) where
  found_under :
      (want : Text)
      → listed want terms ≡ true
      → has_term want (document files name) ≡ true
      → listed name (names_of want (Index.build_file_search_index files).term_index) ≡ true
  unfolding Index.build_file_search_index
  found_under want l has =
      index_documents-has_term files (Index.build_file_search_index files).paths name want [] known
        searchable (full want l) has

  pub candidates-listed :
      Reason (document files name) query terms search_in
      → listed name
          (Tokenized.candidates (Index.build_file_search_index files) query terms search_in)
        ≡ true
  unfolding Tokenized.candidates Index.build_file_search_index
  candidates-listed why =
      let index = Index.build_file_search_index files in
      let p = λ (n : Text).
        not (search_in == codes "content")
        && (contains (document files n).lower_name query
            || contains (document files n).lower_title query) in
      let by_terms : List Text =
        (if not (search_in == codes "title")
          then Tokenized.term_candidates index terms
          else Tokenized.title_candidates index terms) in
      let both = listed-append name by_terms (keep p index.paths) in go why both
    where
      go :
          Reason (document files name) query terms search_in
          → (listed name
                (Tokenized.candidates (Index.build_file_search_index files) query terms search_in)
              ≡ (listed name (
                    if not (search_in == codes "title")
                    then Tokenized.term_candidates (Index.build_file_search_index files) terms
                    else Tokenized.title_candidates (Index.build_file_search_index files) terms)
                  || listed name (
                      keep
                        (λ n.
                          not (search_in == codes "content")
                          && (contains (document files n).lower_name query
                              || contains (document files n).lower_title query))
                        (Index.build_file_search_index files).paths)))
          → listed name
              (Tokenized.candidates (Index.build_file_search_index files) query terms search_in)
            ≡ true
      go (literal lit) both = ground (
        arith,
        both,
        listed-keep name
            (λ n.
              not (search_in == codes "content")
              && (contains (document files n).lower_name query
                  || contains (document files n).lower_title query))
            (Index.build_file_search_index files).paths known lit,
      )
      go (titled want l t) both =
          let index = Index.build_file_search_index files in
          let found = found_under want l (
            ground (
              arith,
              t,
              term_in-listed want (document files name).name_terms,
              term_in-listed want (document files name).title_terms,
            )) in
          elim (Bool-cases (search_in == codes "title")) [
            | inl only ↦
                ground (arith, both, only, title_candidates-listed index name want found terms t l)
            | inr more ↦
                ground (arith, both, more, term_candidates-listed index name want found terms l)
          ]
      go (content want l where_ok t) both =
          let index = Index.build_file_search_index files in
          let found =
            found_under want l
              (ground (arith, t, term_in-listed want (document files name).content_terms)) in
          ground (arith, both, where_ok, term_candidates-listed index name want found terms l)
