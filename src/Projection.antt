-- ===== src/Projection.antt =====
-- pkg/projection/projection.go: what a projection computes, and the templates that name keys and
-- members. A template that is no plain field stands as the function that renders it: text/template is
-- compiled once, and has no state.
pub mod Keyset
pub mod Scalar
pub mod Counter
pub mod Reference
pub mod Folding
pub mod Saturation
pub mod KeysetLaws
pub mod Alike
pub mod Simulation
pub mod Equivalence
use driftwatch.Base.{ℕ, Bool, true, false, ◌||◌, Option, none, some, Str, ℤ}
use driftwatch.Event.{Event}
use driftwatch.Event.Value.{Value, ValueKind, kind_eq}

pub data Action : Type 0 where
  nothing upsert delete : Action

pub data Shape : Type 0 where
  scalar set counter : Shape

pub record Mutation : Type 0 where
  pub key : Str
  pub action : Action
  pub value : Value
  pub ttl : Option ℤ
  pub truncated : Bool
  pub saturated : Bool

-- The sentinel errors that Apply returns.
pub data ApplyError : Type 0 where
  unsupported_op shape_mismatch bad_value bad_config : ApplyError

pub data Result {ℓ} (A : Type ℓ) : Type ℓ where
  ok : A → Result A
  err : ApplyError → Result A

infixl 5 ◌>>=◌
abbrev pub ◌>>=◌ {ℓ κ} : {A : Type ℓ} {B : Type κ} → Result A → (A → Result B) → Result B
ok a >>= f = f a
err e >>= f = err e

pub record TemplateData : Type 0 where
  pub key : Str
  pub member : Str
  pub publisher : Str
  pub topic : Str
  pub epoch : ℕ
  pub seq : ℕ

pub data FieldRef : Type 0 where
  key member publisher topic : FieldRef

pub data Expander : Type 0 where
  field : FieldRef → Expander
  template : (TemplateData → Option Str) → Expander

abbrev field_of : FieldRef → TemplateData → Str
field_of FieldRef.key d = d.key
field_of FieldRef.member d = d.member
field_of FieldRef.publisher d = d.publisher
field_of FieldRef.topic d = d.topic

unfoldable pub expand : Expander → TemplateData → Result Str
expand (field ref) d = ok (field_of ref d)
expand (template render) d = elim (render d) [ none ↦ err bad_config | some s ↦ ok s ]

unfoldable pub data_for : Event → TemplateData
data_for e = record {
  key = e.key;
  member = e.member;
  publisher = e.publisher;
  topic = e.topic;
  epoch = e.epoch;
  seq = e.seq;
}

-- An absent previous value is always acceptable.
unfoldable pub shape_fits : Value → ValueKind → Bool
shape_fits prev want = kind_eq prev.kind ValueKind.absent || kind_eq prev.kind want
