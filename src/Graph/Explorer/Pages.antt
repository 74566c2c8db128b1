-- ===== src/Graph/Explorer/Pages.antt =====
-- graph/service.py: the pages of the explorer, one after the other.
use open_graph_memory.Prelude.{
  ℕ, zero, suc, ◌≤◌, ◌<◌, String, ◌≡◌, refl, sym, ap, ◌∙◌, subst, inl, inr, Bool, true, false,
  Option, none, some, List, [], ◌∷◌, ◌++◌, ltb, map, length, take, drop, where_rows, arith,
  Bool-cases,
}
use mathlib.Core.List.{append_assoc, append-nil}
use open_graph_memory.Prelude.Sorting.{order_by, length-order_by}
use open_graph_memory.Graph.Rows.{CanonicalEntity, RelationAssertion, Graph}
use open_graph_memory.Graph.Explorer.{
  Analytics, ExplorerNode, build_explorer_node_page, list_explorer_relations, explorer_entities,
  explorer_relations, explorer_node, explorer_relation, in_order, is_past_cursor, last_key,
  next_cursor, keyset_page,
}
use open_graph_memory.Graph.Explorer.Sorted.{
  StrictOrder, IsSorted, AreDistinct, order_by-IsSorted, where-after,
}

ltb-suc : (a b : ℕ) → ltb (suc a) (suc b) ≡ ltb a b
ltb-suc a b = ground arith

ltb-le : (a b : ℕ) → ltb a b ≡ false → b ≤ a
ltb-le a b h = ground arith

module _ {A : Type 0} where
  take-drop : (n : ℕ) (xs : List A) → take n xs ++ drop n xs ≡ xs
  take-drop zero xs = refl
  take-drop (suc n) [] = refl
  take-drop (suc n) (x ∷ xs) = λ i. x ∷ take-drop n xs i

  take-take : (n : ℕ) (xs : List A) → take n (take (suc n) xs) ≡ take n xs
  take-take zero xs = refl
  take-take (suc n) [] = refl
  take-take (suc n) (x ∷ xs) = λ i. x ∷ take-take n xs i

  ltb-take : (n : ℕ) (xs : List A) → ltb n (length (take (suc n) xs)) ≡ ltb n (length xs)
  ltb-take zero [] = refl
  ltb-take zero (x ∷ xs) = ground arith
  ltb-take (suc n) [] = refl
  ltb-take (suc n) (x ∷ xs) =
      ltb-suc n (length (take (suc n) xs)) ∙ ltb-take n xs ∙ sym (ltb-suc n (length xs))

  take-all : (n : ℕ) (xs : List A) → length xs ≤ n → take n xs ≡ xs
  take-all zero [] h = refl
  take-all zero (x ∷ xs) h = let never : true ≡ false = ground (arith, h) in cc
  take-all (suc n) [] h = refl
  take-all (suc n) (x ∷ xs) h = λ i. x ∷ take-all n xs (omega (arith, h)) i

  length-drop : (n : ℕ) (xs : List A) → length (drop n xs) ≤ length xs
  length-drop zero xs = omega arith
  length-drop (suc n) [] = omega arith
  length-drop (suc n) (x ∷ xs) = let fewer = length-drop n xs in omega (arith, fewer)

-- The pages after a cursor, until one names no next cursor; a walk of some rounds.
abbrev pub read_all :
    {A : Type 0} → ℕ → (Option String → List A × Option String) → Option String → List A
read_all zero page_after cursor = []
read_all (suc rounds) page_after cursor =
    let page = page_after cursor in
    page.0 ++ elim page.1 [ none ↦ [] | some c ↦ read_all rounds page_after (some c) ]

module _ {A : Type 0} {B : Type 0} (f : A → B) where
  map-append : (xs ys : List A) → map f (xs ++ ys) ≡ map f xs ++ map f ys
  map-append [] ys = refl
  map-append (x ∷ xs) ys = λ i. f x ∷ map-append xs ys i

  read_all-map :
      (rounds : ℕ) (page_after : Option String → List A × Option String) (cursor : Option String)
      → read_all rounds (λ c. (map f (page_after c).0, (page_after c).1)) cursor
        ≡ map f (read_all rounds page_after cursor)
  read_all-map zero page_after cursor = refl
  read_all-map (suc rounds) page_after cursor =
      go (page_after cursor).1 (λ c. read_all-map rounds page_after (some c))
      ∙ sym (map-append (page_after cursor).0 (next (page_after cursor).1))
    where
      next : Option String → List A
      next none = []
      next (some c) = read_all rounds page_after (some c)

      go :
          (c : Option String)
          → ((k : String)
              → read_all rounds (λ c. (map f (page_after c).0, (page_after c).1)) (some k)
                ≡ map f (read_all rounds page_after (some k)))
          → map f (page_after cursor).0 ++ elim c [
            | none ↦ []
            | some k ↦ read_all rounds (λ c. (map f (page_after c).0, (page_after c).1)) (some k)
          ]
            ≡ map f (page_after cursor).0 ++ map f (next c)
      go none rest = refl
      go (some k) rest = λ i. map f (page_after cursor).0 ++ rest k i

module _ {A : Type 0} (less : String → String → Bool) (key : A → String) where
  -- what a page shows, and the rest where it names a next cursor
  abbrev turn : (String → List A) → List A → Bool → List A
  turn rest page has_more =
      page ++ elim (next_cursor less key has_more page) [ none ↦ [] | some c ↦ rest c ]

  abbrev read_pages : ℕ → ℕ → Option String → List A → List A
  read_pages rounds limit cursor table =
      read_all rounds (λ c. keyset_page less key limit c table) cursor

  next_cursor-last : (page : List A) → next_cursor less key false page ≡ none
  next_cursor-last [] = refl
  next_cursor-last (x ∷ xs) = refl

module _ {A : Type 0} (less : String → String → Bool) (key : A → String)
    (laws : StrictOrder less) where
  where-after-page :
      (pre : List A) (x : A) (page post : List A)
      → IsSorted less key (pre ++ (x ∷ (page ++ post)))
      → where_rows (λ y. less (last_key less key x page) (key y)) (pre ++ (x ∷ (page ++ post)))
        ≡ post
  where-after-page pre x [] post sorted = where-after less key laws pre x post sorted
  where-after-page pre x (z ∷ page) post sorted =
      let regroup = append_assoc pre (x ∷ []) (z ∷ (page ++ post)) in
      let rows : List A → List A =
        λ ys. where_rows (λ y. less (last_key less key z page) (key y)) ys in
      ap rows (sym regroup)
      ∙ where-after-page (pre ++ (x ∷ [])) z page post
          (subst (IsSorted less key) (sym regroup) sorted)

  turn-last :
      (further : String → List A) (limit : ℕ) (post : List A)
      → length post ≤ limit
      → turn less key further (take limit post) false ≡ post
  turn-last further limit post few =
      rw (next_cursor-last less key (take limit post))
        (append-nil (take limit post) ∙ take-all limit post few)

  turn-more :
      (further : String → List A) (n : ℕ) (x : A) (xs : List A)
      → further (last_key less key x (take n xs)) ≡ drop n xs
      → turn less key further (take (suc n) (x ∷ xs)) true ≡ x ∷ xs
  turn-more further n x xs h = ap (λ t. x ∷ (take n xs ++ t)) h ∙ (λ i. x ∷ take-drop n xs i)

  read_pages-turn :
      (rounds limit : ℕ) (cursor : Option String) (table post : List A)
      → where_rows (is_past_cursor less key cursor) (order_by (in_order less key) table) ≡ post
      → read_pages less key (suc rounds) limit cursor table
        ≡ turn less key
            (λ c. read_pages less key rounds limit (some c) table)
            (take limit post)
            (ltb limit (length post))
  unfolding keyset_page
  read_pages-turn rounds limit cursor table post rest =
      let further : String → List A = λ c. read_pages less key rounds limit (some c) table in
      let show : List A → List A = λ rows.
        turn less key further (take limit (take (suc limit) rows))
          (ltb limit (length (take (suc limit) rows))) in
      ap show rest ∙ (λ i. turn less key further (take-take limit post i) (ltb-take limit post i))

  -- From a cursor on, the walk reads the rows after it.
  read_pages-rest :
      (rounds n : ℕ) (cursor : Option String) (table pre post : List A)
      → length post < rounds
      → order_by (in_order less key) table ≡ pre ++ post
      → IsSorted less key (pre ++ post)
      → where_rows (is_past_cursor less key cursor) (order_by (in_order less key) table) ≡ post
      → read_pages less key rounds (suc n) cursor table ≡ post
  read_pages-rest zero n cursor table pre post enough split sorted rest =
      let never : true ≡ false = ground (arith, enough) in cc
  read_pages-rest (suc rounds) n cursor table pre [] enough split sorted rest =
      read_pages-turn rounds (suc n) cursor table [] rest
  read_pages-rest (suc rounds) n cursor table pre (x ∷ xs) enough split sorted rest =
      let further : String → List A = λ c. read_pages less key rounds (suc n) (some c) table in
      let shown : List A = take n xs in
      let left : List A = drop n xs in
      let parts : pre ++ (x ∷ xs) ≡ pre ++ (x ∷ (shown ++ left)) =
        ap (λ t. pre ++ (x ∷ t)) (sym (take-drop n xs)) in
      let regroup : pre ++ (x ∷ (shown ++ left)) ≡ (pre ++ (x ∷ shown)) ++ left =
        sym (append_assoc pre (x ∷ shown) left) in
      let above : List A → List A =
        λ ys. where_rows (λ y. less (last_key less key x shown) (key y)) ys in
      let fewer = length-drop n xs in
      let next =
        read_pages-rest rounds n (some (last_key less key x shown)) table (pre ++ (x ∷ shown)) left
          (omega (arith, enough, fewer)) (split ∙ parts ∙ regroup)
          (subst (IsSorted less key) (parts ∙ regroup) sorted)
          (ap above (split ∙ parts)
            ∙ where-after-page pre x shown left (subst (IsSorted less key) parts sorted)) in
      read_pages-turn rounds (suc n) cursor table (x ∷ xs) rest
      ∙ elim (Bool-cases (ltb (suc n) (suc (length xs)))) [
        | inl t ↦ rw t (turn-more further n x xs next)
        | inr f ↦ rw f (turn-last further (suc n) (x ∷ xs) (ltb-le (suc n) (suc (length xs)) f))
      ]

  where-all : (xs : List A) → where_rows (is_past_cursor less key none) xs ≡ xs
  where-all [] = refl
  where-all (x ∷ xs) = λ i. x ∷ where-all xs i

  pub read_pages-order_by :
      (rounds limit : ℕ) (table : List A)
      → 1 ≤ limit
      → length table < rounds
      → AreDistinct key table
      → read_pages less key rounds limit none table ≡ order_by (in_order less key) table
  read_pages-order_by rounds zero table some_rows enough distinct =
      let never : true ≡ false = ground (arith, some_rows) in cc
  read_pages-order_by rounds (suc n) table some_rows enough distinct =
      let ordered : List A = order_by (in_order less key) table in
      read_pages-rest rounds n none table [] ordered
        (subst (λ m. m < rounds) (sym (length-order_by (in_order less key) table)) enough) refl
        (order_by-IsSorted less key laws table distinct) (where-all ordered)

module _ {F : Type 0} (less : String → String → Bool) (laws : StrictOrder less) where
  -- Where the order of the database is strict and total, no two supported rows of the dataset have
  -- one identifier and the limits are positive, a client that follows the cursors from page to page,
  -- for more rounds than there are rows, reads each supported entity and each supported relation
  -- once, in the order of the identifiers.
  pub explorer_pages_complete :
      (g : Graph F) (project dataset : String) (zero_score : F) (an : Analytics F)
      (community_level node_limit relation_limit rounds : ℕ)
      → 1 ≤ node_limit
      → 1 ≤ relation_limit
      → length (explorer_entities less g project dataset) < rounds
      → length (explorer_relations less g project dataset) < rounds
      → AreDistinct (λ (e : CanonicalEntity F). e.id) (explorer_entities less g project dataset)
      → AreDistinct (λ (r : RelationAssertion F). r.id) (explorer_relations less g project dataset)
      → (read_all rounds
            (build_explorer_node_page less g project dataset zero_score an community_level
              node_limit)
            none
          ≡ map (explorer_node less g project dataset zero_score an community_level) (
              order_by
                (in_order less (λ (e : CanonicalEntity F). e.id))
                (explorer_entities less g project dataset)))
        × (read_all rounds (list_explorer_relations less g project dataset relation_limit) none
            ≡ map explorer_relation (
                order_by
                  (in_order less (λ (r : RelationAssertion F). r.id))
                  (explorer_relations less g project dataset)))
  unfolding build_explorer_node_page list_explorer_relations
  explorer_pages_complete g project dataset zero_score an community_level node_limit relation_limit
        rounds some_nodes some_relations node_rounds relation_rounds node_keys relation_keys =
      let node : CanonicalEntity F → ExplorerNode F =
        explorer_node less g project dataset zero_score an community_level in
      let entity_key : CanonicalEntity F → String = λ e. e.id in
      let relation_key : RelationAssertion F → String = λ r. r.id in
      let entities = explorer_entities less g project dataset in
      let relations = explorer_relations less g project dataset in
      (
        read_all-map node rounds (λ c. keyset_page less entity_key node_limit c entities) none
            ∙ ap (map node) (
                read_pages-order_by less entity_key laws rounds node_limit entities some_nodes
                  node_rounds node_keys),
        read_all-map explorer_relation rounds
              (λ c. keyset_page less relation_key relation_limit c relations) none
            ∙ ap (map explorer_relation) (
                read_pages-order_by less relation_key laws rounds relation_limit relations
                  some_relations relation_rounds relation_keys),
      )
