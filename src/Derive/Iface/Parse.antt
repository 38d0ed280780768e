-- ===== src/Derive/Iface/Parse.antt =====
-- The interface that crates/l4_derive/iface.rs takes from the items of a trait.
use l4rerust.Base.{ℕ, Option, none, some, List, [], ◌∷◌, ◌++◌, if◌then◌else◌}
use l4rerust.Base.Text.{codes, same}
use l4rerust.Derive.{Ty, path, no_args, Method, Result, ok, err, panicked, ◌>>=◌}
use l4rerust.Derive.Iface.{IfaceMethod, unnumbered, enumerate_iface_methods, count_demand}

-- `syn::Expr` of a protocol
pub data Expr : Type 0 where
  int_literal : ℕ → Expr
  other_literal : Expr
  other_expr : Expr

-- `syn::TraitItemConst` by its name and value, `syn::TraitItemType` by its name, type and number of
-- attributes.
pub data IfaceAttr : Type 0 where
  const_attr : List ℕ → Option Expr → IfaceAttr
  type_attr : List ℕ → Option Ty → ℕ → IfaceAttr

-- `syn::TraitItem`
pub data TraitItem : Type 0 where
  attr_item : IfaceAttr → TraitItem
  method_item : Method → TraitItem
  other_item : TraitItem

-- The three variables of `parse_iface_attributes`
pub record Attributes : Type 0 where
  pub protocol : Option Expr
  pub opattrs : ℕ
  pub optype : Ty

abbrev pub no_attributes : Attributes
no_attributes = record { protocol = none; opattrs = 0; optype = path (codes "i32") no_args }

abbrev pub set_protocol : Attributes → Option Expr → Result Attributes
set_protocol a none = err (codes "Missing protocol ID")
set_protocol a (some e) = ok (record a { protocol = some e })

abbrev pub set_optype : Attributes → Option Ty → ℕ → Result Attributes
set_optype a none attrs = err (codes "No operand type specified")
set_optype a (some t) attrs = ok (record a { optype = t; opattrs = attrs })

abbrev pub illegal : Result Attributes
illegal = err (codes "Illegal interface attribute specified")

abbrev pub take_attribute : Attributes → IfaceAttr → Result Attributes
take_attribute a (const_attr ident value) =
    if same ident (codes "PROTOCOL_ID") then set_protocol a value else illegal
take_attribute a (type_attr ident ty attrs) =
    if same ident (codes "OpType") then set_optype a ty attrs else illegal

unfoldable pub take_attributes : Attributes → List IfaceAttr → Result Attributes
take_attributes a [] = ok a
take_attributes a (attr ∷ attrs) = take_attribute a attr >>= λ b. take_attributes b attrs

abbrev pub with_protocol : Attributes → Option Expr → Result (Expr × Attributes)
with_protocol a none = err (codes "No protocol id (PROTOCOL_ID) specified")
with_protocol a (some e) = ok (e, a)

unfoldable pub parse_iface_attributes : List IfaceAttr → Result (Expr × Attributes)
parse_iface_attributes attrs =
    take_attributes no_attributes attrs >>= λ a. with_protocol a a.protocol

pub record Iface : Type 0 where
  pub name : List ℕ
  pub iface_protocol : Expr
  pub iface_opattrs : ℕ
  pub iface_optype : Ty
  pub demand : ℕ
  pub methods : List IfaceMethod

-- The attributes and the methods among the items so far
pub record Items : Type 0 where
  pub attrs : List IfaceAttr
  pub found : List IfaceMethod

unfoldable pub split_items : Items → List TraitItem → Result Items
split_items i [] = ok i
split_items i (attr_item a ∷ items) = split_items (record i { attrs = i.attrs ++ (a ∷ []) }) items
split_items i (method_item m ∷ items) =
    split_items (record i { found = i.found ++ (unnumbered m ∷ []) }) items
split_items i (other_item ∷ items) =
    err (codes "Only methods, associated consts and associated types allowed")

abbrev pub demanded : Option ℕ → Result ℕ
demanded none = panicked
demanded (some n) = ok n

-- What `Iface::parse` makes of the items it has told apart.
unfoldable pub parse_found : List ℕ → Items → Result Iface
parse_found name i = parse_iface_attributes i.attrs >>= λ pa.
    enumerate_iface_methods i.found >>= λ methods. demanded (count_demand methods) >>= λ caps.
    ok (record {
      name = name;
      iface_protocol = pa.0;
      iface_opattrs = (pa.1).opattrs;
      iface_optype = (pa.1).optype;
      demand = caps;
      methods = methods;
    })

-- `Iface::parse` behind the keyword `trait` and the name
unfoldable pub parse : List ℕ → List TraitItem → Result Iface
parse name items = split_items (record { attrs = []; found = [] }) items >>= λ i. parse_found name i
