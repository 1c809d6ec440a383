-- ===== src/Dynamo/Update/Frame.antt =====
-- What an update leaves as it is.
use mirror_cloud.Common.{
  ◌≡◌, ◌∙◌, refl, Bool, true, false, ◌||◌, List, [], ◌∷◌, ◌++◌, Option, none, some, if◌then◌else◌,
  or_else, arith,
}
use mirror_cloud.Bytes.{Bytes, codes, same, has_prefix, cut, is_among}
use mirror_cloud.Bytes.Words.{trim_space, fields, join_with}
use mirror_cloud.GoMap.{lookup, insert, lookup-insert, lookup-remove}
use mirror_cloud.Dynamo.Value.{Value, null, Strconv, Item, to_attr}
use mirror_cloud.Dynamo.Split.{split_top}
use mirror_cloud.Dynamo.Parse.{parse_expr}
use mirror_cloud.Dynamo.Eval.{EvalError, Outcome, ok, failed, eval, subst_names}
use mirror_cloud.Dynamo.Sets.{add_attr, delete_from_set}
use mirror_cloud.Dynamo.Update.{
  Update, Action, skip, write, stop, arguments, returned_by, write_value, after_action,
  combine_words, set_one, remove_one, combine_one, each, apply_part, apply_parts, apply_update,
}

is_among-append :
    (k : Bytes) (ks ls : List Bytes) → is_among k (ks ++ ls) ≡ is_among k ks || is_among k ls
unfolding is_among
is_among-append k [] ls = refl
is_among-append k (j ∷ ks) ls = ground (arith, is_among-append k ks ls)

is_among-one : (k j : Bytes) → is_among k (j ∷ []) ≡ same j k || false
unfolding is_among
is_among-one k j = refl

-- An action changes at most the attribute that it names.
abbrev Keeps : Item → Action → Type 0
Keeps item skip = Unit
Keeps item (write name after) = (k : Bytes) → same name k ≡ false → lookup k after ≡ lookup k item
Keeps item (stop e) = Unit

-- An attribute that is not touched further is as before.
abbrev Same : Bytes → Update → Update → Type 0
Same k u v =
    is_among k v.touched ≡ false
    → (is_among k u.touched ≡ false) × (lookup k v.item ≡ lookup k u.item)

written :
    (f : Value → Item) (name : Bytes) (item : Item) (o : Outcome)
    → ((v : Value) (k : Bytes) → same name k ≡ false → lookup k (f v) ≡ lookup k item)
    → Keeps item (write_value o name f)
written f name item (ok v) h = h v
written f name item (failed _ e) h = tt

remove_one-Keeps : (item : Item) (s : Bytes) → Keeps item (remove_one item s)
unfolding remove_one
remove_one-Keeps item s = λ k h. ground (arith, lookup-remove (trim_space s) k item)

insert-same :
    (name : Bytes) (v : Value) (item : Item) (k : Bytes)
    → same name k ≡ false
    → lookup k (insert name v item) ≡ lookup k item
insert-same name v item k h = ground (arith, lookup-insert name k v item)

Keeps-if : (b : Bool) (item : Item) (a : Action) → Keeps item a → Keeps item (if b then a else skip)
Keeps-if true item a h = h
Keeps-if false item a h = tt

append_same :
    (k name : Bytes) (ks : List Bytes)
    → is_among k (ks ++ (name ∷ [])) ≡ false
    → (is_among k ks ≡ false) × (same name k ≡ false)
append_same k name ks h = ground (arith, is_among-append k ks (name ∷ []), is_among-one k name)

module _ (c : Strconv) (values : Item) where
  set_one-Keeps : (item : Item) (s : Bytes) → Keeps item (set_one c values item s)
  unfolding set_one
  set_one-Keeps item s = Keeps-if (cut b'=' s).2 item _ (
      written _ (trim_space (cut b'=' s).0) item
        (eval c item values (parse_expr (trim_space (cut b'=' s).1)))
        (λ v. insert-same (trim_space (cut b'=' s).0) (to_attr c v) item))

  combined :
      (f : Value → Value → Value) (item : Item) (ws : List Bytes)
      → Keeps item (combine_words c values f item ws)
  unfolding combine_words
  combined f item [] = tt
  combined f item (_ ∷ []) = tt
  combined f item (name ∷ word ∷ words) =
      written _ name item (eval c item values (parse_expr (join_with (codes " ") (word ∷ words))))
        (λ v. insert-same name (f (or_else null (lookup name item)) v) item)

  combine_one-Keeps :
      (f : Value → Value → Value) (item : Item) (s : Bytes)
      → Keeps item (combine_one c values f item s)
  unfolding combine_one
  combine_one-Keeps f item s = combined f item (fields (trim_space s))

-- An action and what follows it.
after_action-Same :
    (k : Bytes) (go_on : Update → Update) (u : Update) (a : Action)
    → ((v : Update) → Same k v (go_on v))
    → Keeps u.item a
    → Same k u (after_action go_on u a)
after_action-Same k go_on u skip goes h = goes u
after_action-Same k go_on u (write name item) goes h = λ untouched.
    let (before, kept) =
      goes record { item = item; touched = u.touched ++ (name ∷ []); error = u.error } untouched in
    let (fresh, differs) = append_same k name u.touched before in (fresh, kept ∙ h k differs)
after_action-Same k go_on u (stop e) goes h = λ untouched. (untouched, refl)

each-Same :
    (k : Bytes) (f : Item → Bytes → Action) (ss : List Bytes) (u : Update)
    → ((item : Item) (s : Bytes) → Keeps item (f item s))
    → Same k u (each f ss u)
unfolding each
each-Same k f [] u keeps = λ h. (h, refl)
each-Same k f (s ∷ ss) u keeps =
    after_action-Same k (each f ss) u (f u.item s) (λ v. each-Same k f ss v keeps) (keeps u.item s)

Same-trans : (k : Bytes) (u v w : Update) → Same k u v → Same k v w → Same k u w
Same-trans k u v w p q = λ h. let (a, b) = q h in let (d, e) = p a in (d, b ∙ e)

Same-if :
    (k : Bytes) (b : Bool) (u v w : Update)
    → Same k u v
    → Same k u w
    → Same k u (if b then v else w)
Same-if k true u v w p q = p
Same-if k false u v w p q = q

Same-unless :
    (k : Bytes) (e : Option EvalError) (u v w : Update)
    → Same k u v
    → Same k u w
    → Same k u (elim e [ none ↦ v | some _ ↦ w ])
Same-unless k none u v w p q = p
Same-unless k (some _) u v w p q = q

module _ (c : Strconv) (values : Item) (k : Bytes) where
  apply_part-Same : (part : Bytes) (u : Update) → Same k u (apply_part c values part u)
  unfolding apply_part
  apply_part-Same part u =
      Same-if k (has_prefix (codes "SET ") part) u _ _
        (each-Same k (set_one c values) (arguments (codes "SET ") part) u (set_one-Keeps c values))
        (Same-if k (has_prefix (codes "REMOVE ") part) u _ _
          (each-Same k remove_one (arguments (codes "REMOVE ") part) u remove_one-Keeps)
          (Same-if k (has_prefix (codes "ADD ") part) u _ _
            (each-Same k (combine_one c values (add_attr c)) (arguments (codes "ADD ") part) u
              (combine_one-Keeps c values (add_attr c)))
            (Same-if k (has_prefix (codes "DELETE ") part) u _ _
              (each-Same k (combine_one c values (delete_from_set c))
                (arguments (codes "DELETE ") part) u
                (combine_one-Keeps c values (delete_from_set c)))
              (λ h. (h, refl)))))

  apply_parts-Same : (ps : List Bytes) (u : Update) → Same k u (apply_parts c values ps u)
  unfolding apply_parts
  apply_parts-Same [] u = λ h. (h, refl)
  apply_parts-Same (p ∷ ps) u =
      let v = apply_part c values (trim_space p) u in
      let first = apply_part-Same (trim_space p) u in
      Same-unless k v.error u (apply_parts c values ps v) v
        (Same-trans k u v (apply_parts c values ps v) first (apply_parts-Same ps v)) first

  returned-Same :
      (e : Option EvalError) (u v : Update)
      → (returned_by e v).error ≡ none
      → Same k u v
      → Same k u (returned_by e v)
  returned-Same none u v h s = s
  returned-Same (some e) u v h s = cc

  -- An update that answers without an error leaves every attribute that is not among the names that
  -- it returns as it was.
  pub apply_update_frame :
      (expr : Bytes) (item names : Item)
      → (apply_update c expr item names values).error ≡ none
      → is_among k (apply_update c expr item names values).touched ≡ false
      → lookup k (apply_update c expr item names values).item ≡ lookup k item
  unfolding apply_update
  apply_update_frame expr item names h untouched =
      let start : Update = record { item = item; touched = []; error = none } in
      let done = apply_parts c values (split_top (subst_names expr names)) start in
      (returned-Same done.error start done h
        (apply_parts-Same (split_top (subst_names expr names)) start) untouched).1
