-- ===== src/Dynamo/Sets.antt =====
-- addAttr and deleteFromSet of internal/services/aws/dynamodb/expr/expr.go: the sets of an item.
use mirror_cloud.Common.{
  ◌≡◌, refl, ap, true, false, not, ◌&&◌, ◌||◌, List, [], ◌∷◌, ◌++◌, Option, none, some, map,
  keep_if, if◌then◌else◌, arith,
}
use mirror_cloud.Bytes.{Bytes, codes, same, same_iff, is_among, is_fresh}
use mirror_cloud.Float.Arith.{add_f64}
use mirror_cloud.Dynamo.Value.{
  Value, text, list, object, Strconv, at_key, to_list, of_list, one_member, unwrap, sprint,
  to_float, as_list,
}

-- dm["SS"].([]any)
abbrev pub set_of : Value → Option (List Value)
unfolding at_key to_list
set_of (object m) = elim (at_key (codes "SS") m) [ some (list vs) ↦ some (to_list vs) | _ ↦ none ]
set_of _ = none

-- What is in the set before: the elements of a map.
abbrev pub old_elements : Value → List Value
unfolding as_list
old_elements (object m) = as_list (object m)
old_elements _ = []

none_seen : (k : Bytes) → is_among k [] ≡ false
unfolding is_among
none_seen k = refl

to_list-of_list : (vs : List Value) → to_list (of_list vs) ≡ vs
unfolding to_list of_list
to_list-of_list [] = refl
to_list-of_list (v ∷ vs) = ap (λ l. v ∷ l) (to_list-of_list vs)

is_among-same : (j k : Bytes) (ks : List Bytes) → same j k ≡ true → is_among j ks ≡ is_among k ks
is_among-same j k ks h = ap (λ i. is_among i ks) ((same_iff j k).0 h)

module _ (c : Strconv) where
  open c use {format_float}

  -- fmt.Sprint(unwrap(x))
  unfoldable pub print_of : Value → Bytes
  unfolding unwrap sprint
  print_of x = sprint c (unwrap c x)

  -- The elements whose print has not been seen, in order.
  unfoldable pub distinct : List Bytes → List Value → List Value
  unfolding print_of is_among
  distinct seen [] = []
  distinct seen (x ∷ xs) =
      let skipped = distinct seen xs in
      let kept = distinct (print_of x ∷ seen) xs in
      if is_among (print_of x) seen then skipped else x ∷ kept

  -- addAttr
  unfoldable pub add_attr : Value → Value → Value
  unfolding distinct to_float unwrap
  add_attr cur delta = elim (set_of delta) [
    | some ss ↦ one_member (codes "SS") (list (of_list (distinct [] (old_elements cur ++ ss))))
    | none ↦
        one_member (codes "N")
          (text (format_float (add_f64 (to_float c (unwrap c cur)) (to_float c (unwrap c delta)))))
  ]

  -- deleteFromSet
  unfoldable pub delete_from_set : Value → Value → Value
  unfolding print_of is_among as_list of_list
  delete_from_set cur delta = one_member (codes "SS") (
      list (
        of_list (
          keep_if (λ x. not (is_among (print_of x) (map print_of (as_list delta)))) (as_list cur))))

  -- The prints of a set's elements.
  abbrev pub prints : Value → List Bytes
  prints v = map print_of (as_list v)

  keys : List Value → List Bytes
  keys xs = map print_of xs

  is_among-append :
      (k : Bytes) (xs ys : List Value)
      → is_among k (map print_of (xs ++ ys))
        ≡ is_among k (map print_of xs) || is_among k (map print_of ys)
  unfolding is_among
  is_among-append k [] ys = refl
  is_among-append k (x ∷ xs) ys = ground (arith, is_among-append k xs ys)

  is_among-distinct :
      (k : Bytes) (seen : List Bytes) (xs : List Value)
      → is_among k (map print_of (distinct seen xs))
        ≡ not (is_among k seen) && is_among k (map print_of xs)
  unfolding distinct is_among
  is_among-distinct k seen [] = ground arith
  is_among-distinct k seen (x ∷ xs) = ground (
    arith,
    is_among-distinct k seen xs,
    is_among-distinct k (print_of x ∷ seen) xs,
    is_among-same (print_of x) k seen,
  )

  is_fresh-distinct :
      (seen : List Bytes) (xs : List Value) → is_fresh seen (map print_of (distinct seen xs)) ≡ true
  unfolding distinct
  is_fresh-distinct seen [] = refl
  is_fresh-distinct seen (x ∷ xs) =
      ground (arith, is_fresh-distinct seen xs, is_fresh-distinct (print_of x ∷ seen) xs)

  is_among-keep_if :
      (k : Bytes) (gone : List Bytes) (xs : List Value)
      → is_among k (map print_of (keep_if (λ x. not (is_among (print_of x) gone)) xs))
        ≡ is_among k (map print_of xs) && not (is_among k gone)
  unfolding is_among
  is_among-keep_if k gone [] = ground arith
  is_among-keep_if k gone (x ∷ xs) =
      ground (arith, is_among-keep_if k gone xs, is_among-same (print_of x) k gone)

  add_attr_elements :
      (cur delta : Value) (ss : List Value)
      → set_of delta ≡ some ss
      → as_list (add_attr cur delta) ≡ distinct [] (old_elements cur ++ ss)
  unfolding add_attr as_list at_key same
  add_attr_elements cur delta ss h =
      rw (h, add_attr) (to_list-of_list (distinct [] (old_elements cur ++ ss)))

  -- ADD of a string set (SS) is the union with the elements of the string set that the attribute
  -- has, by what the elements print as, and no element stands in it twice.
  pub add_attr_union :
      (cur delta : Value) (ss : List Value)
      → set_of delta ≡ some ss
      → ((k : Bytes)
          → is_among k (prints (add_attr cur delta))
            ≡ is_among k (map print_of (old_elements cur)) || is_among k (map print_of ss))
        × (is_fresh [] (prints (add_attr cur delta)) ≡ true)
  add_attr_union cur delta ss h =
      let l = old_elements cur ++ ss in
      rw (add_attr_elements cur delta ss h) (
        (λ k. ground (
          arith,
          is_among-distinct k [] l,
          is_among-append k (old_elements cur) ss,
          none_seen k,
        )),
        is_fresh-distinct [] l,
      )

  -- DELETE from a set leaves the elements that do not print as one of those given.
  pub delete_from_set_difference :
      (cur delta : Value) (k : Bytes)
      → is_among k (prints (delete_from_set cur delta))
        ≡ is_among k (prints cur) && not (is_among k (prints delta))
  unfolding delete_from_set as_list at_key same
  delete_from_set_difference cur delta k =
      let gone = prints delta in
      rw (to_list-of_list (keep_if (λ x. not (is_among (print_of x) gone)) (as_list cur)))
        (is_among-keep_if k gone (as_list cur))
