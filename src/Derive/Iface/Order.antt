-- ===== src/Derive/Iface/Order.antt =====
-- The order of attributes and methods in an interface of crates/l4_derive/iface.rs.
use l4rerust.Base.{
  ℕ, ◌≡◌, ap, ap₂, sym, ◌∙◌, Bool, true, false, List, [], ◌∷◌, ◌++◌, map, append-nil, append_assoc,
}
use l4rerust.Derive.{Method, ok, ◌>>=◌}
use l4rerust.Derive.Iface.{IfaceMethod, unnumbered}
use l4rerust.Derive.Iface.Parse.{
  IfaceAttr, TraitItem, attr_item, method_item, other_item, Items, split_items, parse_found, parse,
}

abbrev pub attrs_of : List TraitItem → List IfaceAttr
attrs_of [] = []
attrs_of (attr_item a ∷ items) = a ∷ attrs_of items
attrs_of (method_item m ∷ items) = attrs_of items
attrs_of (other_item ∷ items) = attrs_of items

abbrev pub methods_of : List TraitItem → List Method
methods_of [] = []
methods_of (attr_item a ∷ items) = methods_of items
methods_of (method_item m ∷ items) = m ∷ methods_of items
methods_of (other_item ∷ items) = methods_of items

abbrev pub all_allowed : List TraitItem → Bool
all_allowed [] = true
all_allowed (attr_item _ ∷ items) = all_allowed items
all_allowed (method_item _ ∷ items) = all_allowed items
all_allowed (other_item ∷ items) = false

-- The attributes, then the methods
abbrev pub attributes_first : List TraitItem → List TraitItem
attributes_first items = map attr_item (attrs_of items) ++ map method_item (methods_of items)

abbrev items_of : List IfaceAttr → List IfaceMethod → Items
items_of as_found ms = record { attrs = as_found; found = ms }

split_items_lem :
    (as_found : List IfaceAttr) (ms : List IfaceMethod) (items : List TraitItem)
    → all_allowed items ≡ true
    → split_items (items_of as_found ms) items
      ≡ ok (items_of (as_found ++ attrs_of items) (ms ++ map unnumbered (methods_of items)))
unfolding split_items
split_items_lem bs ms [] h = ap ok (ap₂ items_of (sym (append-nil bs)) (sym (append-nil ms)))
split_items_lem bs ms (attr_item a ∷ items) h =
    split_items_lem (bs ++ (a ∷ [])) ms items h
    ∙ ap (λ x. ok (items_of x (ms ++ map unnumbered (methods_of items))))
        (append_assoc bs (a ∷ []) (attrs_of items))
split_items_lem bs ms (method_item m ∷ items) h =
    split_items_lem bs (ms ++ (unnumbered m ∷ [])) items h
    ∙ ap (λ x. ok (items_of (bs ++ attrs_of items) x))
        (append_assoc ms (unnumbered m ∷ []) (map unnumbered (methods_of items)))
split_items_lem bs ms (other_item ∷ items) h = absurd cc

split_methods :
    (as_found : List IfaceAttr) (ms : List IfaceMethod) (methods : List Method)
    → split_items (items_of as_found ms) (map method_item methods)
      ≡ ok (items_of as_found (ms ++ map unnumbered methods))
unfolding split_items
split_methods bs ms [] = ap (λ x. ok (items_of bs x)) (sym (append-nil ms))
split_methods bs ms (m ∷ methods) =
    split_methods bs (ms ++ (unnumbered m ∷ [])) methods
    ∙ ap (λ x. ok (items_of bs x)) (append_assoc ms (unnumbered m ∷ []) (map unnumbered methods))

split_attributes_first :
    (as_found : List IfaceAttr) (ms : List IfaceMethod) (new : List IfaceAttr)
    (methods : List Method)
    → split_items (items_of as_found ms) (map attr_item new ++ map method_item methods)
      ≡ ok (items_of (as_found ++ new) (ms ++ map unnumbered methods))
unfolding split_items
split_attributes_first bs ms [] methods =
    split_methods bs ms methods
    ∙ ap (λ x. ok (items_of x (ms ++ map unnumbered methods))) (sym (append-nil bs))
split_attributes_first bs ms (a ∷ new) methods =
    split_attributes_first (bs ++ (a ∷ [])) ms new methods
    ∙ ap (λ x. ok (items_of x (ms ++ map unnumbered methods))) (append_assoc bs (a ∷ []) new)

-- For items that are attributes and methods: an interface is taken, or refused, as the one with the
-- same attributes before the same methods.
parse-attributes_first :
    (name : List ℕ) (items : List TraitItem)
    → all_allowed items ≡ true
    → parse name items ≡ parse name (attributes_first items)
unfolding parse
parse-attributes_first name items h =
    ap (λ r. r >>= λ i. parse_found name i)
      (split_items_lem [] [] items h
        ∙ sym (split_attributes_first [] [] (attrs_of items) (methods_of items)))
