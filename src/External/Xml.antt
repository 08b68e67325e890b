-- ===== src/External/Xml.antt =====
-- TinyXML, by the calls that src/Config.cpp makes.
use worker_log.Base.{Option, none, some, Bytes}

pub record Xml : Type 1 where
  pub Element : Type 0
  -- `FirstChildElement (name)` and `GetText ()`; a null pointer is `none`.
  pub first_child : Element → Bytes → Option Element
  pub get_text : Element → Option Bytes
  pub attribute : Element → Bytes → Option Bytes

-- `(el = parent->FirstChildElement (name)) && el->GetText ()`: the text.
abbrev pub text_of : (X : Xml) → X.Element → Bytes → Option Bytes
text_of X parent name = elim (X.first_child parent name) [ none ↦ none | some el ↦ X.get_text el ]
