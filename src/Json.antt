-- ===== src/Json.antt =====
-- JSON documents: what encoding/json writes into the audit log and reads back.
use gb_522_a16g.Base.{ℕ, String, Bool}

-- A number is a `float64`, or an unsigned integer for ids, counts and times. `unreadable` stands for a
-- stored text that is no JSON, which json.Marshal refuses to copy.
mutual
  pub data Value (F : Type 0) : Type 0 where
    null : Value F
    unreadable : Value F
    bool : Bool → Value F
    num : F → Value F
    int : ℕ → Value F
    text : String → Value F
    arr : Items F → Value F
    obj : Fields F → Value F

  pub data Items (F : Type 0) : Type 0 where
    empty : Items F
    item : Value F → Items F → Items F

  pub data Fields (F : Type 0) : Type 0 where
    end : Fields F
    field : String → Value F → Fields F → Fields F

-- A JSON column that holds documents of one shape: no text, text that is no JSON, or a document.
pub data Column (A : Type 0) : Type 0 where
  blank : Column A
  malformed : Column A
  encoded : A → Column A
