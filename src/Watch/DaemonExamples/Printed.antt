-- ===== src/Watch/DaemonExamples/Printed.antt =====
-- A concrete printer and reader of JSON values that meets what the codec relies on: values in postfix form.
use jrag.Base.{
  ℕ, zero, suc, true, false, Option, none, some, List, [], ◌∷◌, ◌++◌, ◌≡◌, refl, ap, ◌∙◌, arith,
  if◌then◌else◌, ◌==◌, ◌||◌, Text,
}
use jrag.Watch.Protocol.{
  Value, null, bool, num, text, list, object, Items, nil, item, Fields, end, field, Json, is_blank,
}
use jrag.Watch.Protocol.Roundtrip.{JsonLaws, blank-append}
use jrag.Watch.Client.{has_newline}
use jrag.Watch.Client.Transparent.{PrintsLines}

pub data Cell : Type 0 where
  a_value : Value → Cell
  a_text : Text → Cell
  a_items : Items → Cell
  a_fields : Fields → Cell

pub data Op : Type 0 where
  push_null push_true push_false push_zero count_up : Op
  push_text push_char char_up close_text : Op
  push_items push_item close_items push_fields push_field close_fields skip : Op

op_of : ℕ → Op
op_of t =
    if t == 100
    then push_null
    else if t == 101
    then push_true
    else if t == 102
    then push_false
    else if t == 103
    then push_zero
    else if t == 104
    then count_up
    else if t == 105
    then push_text
    else if t == 106
    then push_char
    else if t == 107
    then char_up
    else if t == 108
    then close_text
    else if t == 109
    then push_items
    else if t == 110
    then push_item
    else if t == 111
    then close_items
    else if t == 112
    then push_fields
    else if t == 113
    then push_field
    else if t == 114
    then close_fields
    else skip

apply_op : Op → List Cell → List Cell
apply_op push_null st = a_value null ∷ st
apply_op push_true st = a_value (bool true) ∷ st
apply_op push_false st = a_value (bool false) ∷ st
apply_op push_zero st = a_value (num 0) ∷ st
apply_op count_up (a_value (num n) ∷ st) = a_value (num (suc n)) ∷ st
apply_op push_text st = a_text [] ∷ st
apply_op push_char (a_text t ∷ st) = a_text (zero ∷ t) ∷ st
apply_op char_up (a_text (c ∷ t) ∷ st) = a_text (suc c ∷ t) ∷ st
apply_op close_text (a_text t ∷ st) = a_value (text t) ∷ st
apply_op push_items st = a_items nil ∷ st
apply_op push_item (a_value v ∷ a_items xs ∷ st) = a_items (item v xs) ∷ st
apply_op close_items (a_items xs ∷ st) = a_value (list xs) ∷ st
apply_op push_fields st = a_fields end ∷ st
apply_op push_field (a_value v ∷ a_text k ∷ a_fields fs ∷ st) = a_fields (field k v fs) ∷ st
apply_op close_fields (a_fields fs ∷ st) = a_value (object fs) ∷ st
apply_op _ st = st

exec : List ℕ → List Cell → List Cell
unfolding op_of apply_op
exec [] st = st
exec (t ∷ ts) st = exec ts (apply_op (op_of t) st)

print_num : ℕ → List ℕ
print_num zero = 103 ∷ []
print_num (suc n) = print_num n ++ (104 ∷ [])

print_char : ℕ → List ℕ
print_char zero = 106 ∷ []
print_char (suc c) = print_char c ++ (107 ∷ [])

print_text : Text → List ℕ
unfolding print_char
print_text [] = 105 ∷ []
print_text (c ∷ t) = print_text t ++ print_char c

mutual
  unfolding print_num print_text

  print : Value → List ℕ
  print null = 100 ∷ []
  print (bool true) = 101 ∷ []
  print (bool false) = 102 ∷ []
  print (num n) = print_num n
  print (text t) = print_text t ++ (108 ∷ [])
  print (list xs) = print_items xs ++ (111 ∷ [])
  print (object fs) = print_fields fs ++ (114 ∷ [])

  print_items : Items → List ℕ
  print_items nil = 109 ∷ []
  print_items (item v xs) = print_items xs ++ (print v ++ (110 ∷ []))

  print_fields : Fields → List ℕ
  print_fields end = 112 ∷ []
  print_fields (field k v fs) = print_fields fs ++ (print_text k ++ (print v ++ (113 ∷ [])))

exec-append : (l m : List ℕ) (st : List Cell) → exec (l ++ m) st ≡ exec m (exec l st)
unfolding exec
exec-append [] m st = refl
exec-append (t ∷ l) m st = exec-append l m (apply_op (op_of t) st)

exec-num : (n : ℕ) (st : List Cell) → exec (print_num n) st ≡ a_value (num n) ∷ st
unfolding exec print_num
exec-num zero st = refl
exec-num (suc n) st = exec-append (print_num n) (104 ∷ []) st ∙ ap (exec (104 ∷ [])) (exec-num n st)

exec-char :
    (c : ℕ) (t : Text) (st : List Cell) → exec (print_char c) (a_text t ∷ st) ≡ a_text (c ∷ t) ∷ st
unfolding exec print_char
exec-char zero t st = refl
exec-char (suc c) t st =
    exec-append (print_char c) (107 ∷ []) (a_text t ∷ st) ∙ ap (exec (107 ∷ [])) (exec-char c t st)

exec-text : (t : Text) (st : List Cell) → exec (print_text t) st ≡ a_text t ∷ st
unfolding exec print_text
exec-text [] st = refl
exec-text (c ∷ t) st =
    exec-append (print_text t) (print_char c) st
    ∙ ap (exec (print_char c)) (exec-text t st)
    ∙ exec-char c t st

mutual
  unfolding exec print

  exec-print : (v : Value) (st : List Cell) → exec (print v) st ≡ a_value v ∷ st
  exec-print null st = refl
  exec-print (bool true) st = refl
  exec-print (bool false) st = refl
  exec-print (num n) st = exec-num n st
  exec-print (text t) st =
      exec-append (print_text t) (108 ∷ []) st ∙ ap (exec (108 ∷ [])) (exec-text t st)
  exec-print (list xs) st =
      exec-append (print_items xs) (111 ∷ []) st ∙ ap (exec (111 ∷ [])) (exec-items xs st)
  exec-print (object fs) st =
      exec-append (print_fields fs) (114 ∷ []) st ∙ ap (exec (114 ∷ [])) (exec-fields fs st)

  exec-items : (xs : Items) (st : List Cell) → exec (print_items xs) st ≡ a_items xs ∷ st
  exec-items nil st = refl
  exec-items (item v xs) st =
      exec-append (print_items xs) (print v ++ (110 ∷ [])) st
      ∙ ap (exec (print v ++ (110 ∷ []))) (exec-items xs st)
      ∙ exec-append (print v) (110 ∷ []) (a_items xs ∷ st)
      ∙ ap (exec (110 ∷ [])) (exec-print v (a_items xs ∷ st))

  exec-fields : (fs : Fields) (st : List Cell) → exec (print_fields fs) st ≡ a_fields fs ∷ st
  exec-fields end st = refl
  exec-fields (field k v fs) st =
      let st' = a_fields fs ∷ st in
      exec-append (print_fields fs) (print_text k ++ (print v ++ (113 ∷ []))) st
      ∙ ap (exec (print_text k ++ (print v ++ (113 ∷ [])))) (exec-fields fs st)
      ∙ exec-append (print_text k) (print v ++ (113 ∷ [])) st'
      ∙ ap (exec (print v ++ (113 ∷ []))) (exec-text k st')
      ∙ exec-append (print v) (113 ∷ []) (a_text k ∷ st')
      ∙ ap (exec (113 ∷ [])) (exec-print v (a_text k ∷ st'))

abbrev IsSolid : List ℕ → Type 0
IsSolid l = (has_newline l ≡ false) × (is_blank l ≡ false)

newline-append : (l m : List ℕ) → has_newline (l ++ m) ≡ (has_newline l || has_newline m)
unfolding has_newline
newline-append [] m = refl
newline-append (c ∷ l) m = ground (arith, newline-append l m)

IsSolid-append : (l m : List ℕ) → IsSolid l → IsSolid m → IsSolid (l ++ m)
IsSolid-append l m h k = (newline-append l m ∙ rw h.0 k.0, blank-append l m h.1)

print_num-IsSolid : (n : ℕ) → IsSolid (print_num n)
unfolding print_num has_newline is_blank
print_num-IsSolid zero = (refl, refl)
print_num-IsSolid (suc n) =
    IsSolid-append (print_num n) (104 ∷ []) (print_num-IsSolid n) (refl, refl)

print_char-IsSolid : (c : ℕ) → IsSolid (print_char c)
unfolding print_char has_newline is_blank
print_char-IsSolid zero = (refl, refl)
print_char-IsSolid (suc c) =
    IsSolid-append (print_char c) (107 ∷ []) (print_char-IsSolid c) (refl, refl)

print_text-IsSolid : (t : Text) → IsSolid (print_text t)
unfolding print_text has_newline is_blank
print_text-IsSolid [] = (refl, refl)
print_text-IsSolid (c ∷ t) =
    IsSolid-append (print_text t) (print_char c) (print_text-IsSolid t) (print_char-IsSolid c)

mutual
  unfolding print has_newline is_blank

  print-IsSolid : (v : Value) → IsSolid (print v)
  print-IsSolid null = (refl, refl)
  print-IsSolid (bool true) = (refl, refl)
  print-IsSolid (bool false) = (refl, refl)
  print-IsSolid (num n) = print_num-IsSolid n
  print-IsSolid (text t) =
      IsSolid-append (print_text t) (108 ∷ []) (print_text-IsSolid t) (refl, refl)
  print-IsSolid (list xs) =
      IsSolid-append (print_items xs) (111 ∷ []) (print_items-IsSolid xs) (refl, refl)
  print-IsSolid (object fs) =
      IsSolid-append (print_fields fs) (114 ∷ []) (print_fields-IsSolid fs) (refl, refl)

  print_items-IsSolid : (xs : Items) → IsSolid (print_items xs)
  print_items-IsSolid nil = (refl, refl)
  print_items-IsSolid (item v xs) =
      IsSolid-append (print_items xs) (print v ++ (110 ∷ [])) (print_items-IsSolid xs)
        (IsSolid-append (print v) (110 ∷ []) (print-IsSolid v) (refl, refl))

  print_fields-IsSolid : (fs : Fields) → IsSolid (print_fields fs)
  print_fields-IsSolid end = (refl, refl)
  print_fields-IsSolid (field k v fs) =
      IsSolid-append (print_fields fs) (print_text k ++ (print v ++ (113 ∷ [])))
        (print_fields-IsSolid fs)
        (IsSolid-append (print_text k) (print v ++ (113 ∷ [])) (print_text-IsSolid k)
          (IsSolid-append (print v) (113 ∷ []) (print-IsSolid v) (refl, refl)))

abbrev only_value : List Cell → Option Value
only_value (a_value v ∷ []) = some v
only_value _ = none

read : List ℕ → Option Value
unfolding exec
read line = only_value (exec line [])

unfoldable pub json : Json
unfolding print read
json = record { dumps = print; loads = read }

pub json_laws : JsonLaws json
unfolding json exec
json_laws = record {
  reads = λ x. ap only_value (exec-print x []);
  reads_line = λ x.
      ap only_value (exec-append (print x) (10 ∷ []) [] ∙ ap (exec (10 ∷ [])) (exec-print x []));
  is_text = λ x. (print-IsSolid x).1;
}

pub json_lines : PrintsLines json
unfolding json
json_lines x = (print-IsSolid x).0
