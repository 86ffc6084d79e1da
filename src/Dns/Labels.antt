-- ===== src/Dns/Labels.antt =====
-- The name in a query, read as RFC 1035 says.
use mathlib.Core.List.{append_assoc, append-nil}
use korby_os.Base.{
  ℕ, zero, suc, ◌+◌, ◌^◌, ◌<◌, ◌≡◌, ◌≢◌, refl, sym, ap, ap₂, ◌∙◌, Option, none, some, List, [], ◌∷◌,
  ◌++◌, ◌==◌, ltb, if◌then◌else◌, u8, length, length-append, take, drop, All, if_no, arith, ◌>>=◌,
}
use korby_os.Dhcp.Options.{drop-++}
use korby_os.Dns.{Writer, write_character, write_all, write_name, query, dns_size}

-- Labels with dots between them.
abbrev pub join : List ℕ → List (List ℕ) → List ℕ
join label [] = label
join label (next ∷ labels) = label ++ b'.' ∷ join next labels

-- Labels as a message holds them.
abbrev pub encode_labels : List (List ℕ) → List ℕ
encode_labels [] = 0 ∷ []
encode_labels (label ∷ labels) = length label ∷ (label ++ encode_labels labels)

-- A reader of labels: a count, and as many bytes, up to the count 0.
unfoldable pub read_labels : ℕ → List ℕ → Option (List (List ℕ) × List ℕ)
read_labels zero bytes = none
read_labels (suc fuel) [] = none
read_labels (suc fuel) (zero ∷ bytes) = some ([], bytes)
read_labels (suc fuel) (suc n ∷ bytes) =
    if ltb (length bytes) (suc n)
    then none
    else (read_labels fuel (drop (suc n) bytes) >>= λ r. some (take (suc n) bytes ∷ r.0, r.1))

-- A label has a byte at least, fewer than 64, and none of them is a dot.
pub record IsLabel (label : List ℕ) : Type 0 where
  pub nonempty : 0 < length label
  pub short : length label < 64
  pub undotted : All (λ c. c ≢ b'.') label

write_all-label :
    (label rest : List ℕ) (w : Writer)
    → All (λ c. c ≢ b'.') label
    → w.number + length label < 256
    → write_all (label ++ rest) w
      ≡ write_all rest (record w { number = w.number + length label; label = w.label ++ label })
unfolding write_all write_character
write_all-label [] rest w plain short =
    ap₂ (λ n l. write_all rest (record { complete = w.complete; number = n; label = l }))
      (omega arith) (sym (append-nil w.label))
write_all-label (c ∷ label) rest w plain short =
    (let next : u8 (w.number + 1) ≡ suc w.number = omega (arith, short) in
      let more = record w { number = u8 (w.number + 1); label = w.label ++ c ∷ [] } in
      ap (write_all (label ++ rest))
        (if_no {b = c == b'.'} _ more (let other = plain.0 in ground arith))
      ∙ (write_all-label label rest more plain.1 (omega (arith, next, short))
          ∙ ap₂ (λ n l. write_all rest (record { complete = w.complete; number = n; label = l }))
              (omega (arith, next)) (append_assoc w.label (c ∷ []) label)))

closed : Writer → List ℕ
closed w = w.complete ++ (w.number ∷ (w.label ++ 0 ∷ []))

write_all-join :
    (labels : List (List ℕ)) (label : List ℕ) (done : List ℕ)
    → IsLabel label
    → All IsLabel labels
    → closed (write_all (join label labels) (record { complete = done; number = 0; label = [] }))
      ≡ done ++ encode_labels (label ∷ labels)
unfolding write_all write_character closed
write_all-join [] label done is all =
    (let start : Writer = record { complete = done; number = 0; label = [] } in
      let short = is.short in
      ap (λ l. closed (write_all l start)) (sym (append-nil label))
      ∙ (ap closed (write_all-label label [] start is.undotted (omega arith))
          ∙ ap (λ n. done ++ (n ∷ (label ++ 0 ∷ []))) (omega arith)))
write_all-join (next ∷ labels) label done is all =
    (let start : Writer = record { complete = done; number = 0; label = [] } in
      let short = is.short in
      ap closed (write_all-label label (b'.' ∷ join next labels) start is.undotted (omega arith))
      ∙ (write_all-join labels next (done ++ (0 + length label) ∷ label) all.0 all.1
          ∙ (append_assoc done ((0 + length label) ∷ label) (encode_labels (next ∷ labels))
              ∙ ap (λ n. done ++ (n ∷ (label ++ encode_labels (next ∷ labels)))) (omega arith))))

-- A name of labels is written as its labels.
write_name-encode_labels :
    (label : List ℕ) (labels : List (List ℕ))
    → IsLabel label
    → All IsLabel labels
    → write_name (join label labels) ≡ encode_labels (label ∷ labels)
unfolding write_name closed
write_name-encode_labels label labels is all = write_all-join labels label [] is all

take-++ : (xs ys : List ℕ) → take (length xs) (xs ++ ys) ≡ xs
take-++ [] ys = refl
take-++ (x ∷ xs) ys = ap (λ l. x ∷ l) (take-++ xs ys)

read_labels-encode_labels :
    (fuel : ℕ) (labels : List (List ℕ)) (behind : List ℕ)
    → All IsLabel labels
    → length labels < fuel
    → read_labels fuel (encode_labels labels ++ behind) ≡ some (labels, behind)
unfolding read_labels
read_labels-encode_labels zero labels behind all enough = absurd (omega arith)
read_labels-encode_labels (suc fuel) [] behind all enough = refl
read_labels-encode_labels (suc fuel) ([] ∷ labels) behind all enough =
    absurd (let full = all.0.nonempty in omega arith)
read_labels-encode_labels (suc fuel) ((c ∷ label) ∷ labels) behind all enough =
    (let rest = encode_labels labels ++ behind in
      let split : (label ++ encode_labels labels) ++ behind ≡ label ++ rest =
        append_assoc label _ behind in
      ap (λ l. read_labels (suc fuel) (suc (length label) ∷ c ∷ l)) split
      ∙ (if_no {b = ltb (suc (length (label ++ rest))) (suc (length label))} none _
            (ground (arith, length-append label rest))
          ∙ (ap₂ (λ b t. read_labels fuel b >>= λ r. some ((c ∷ t) ∷ r.0, r.1)) (drop-++ label rest)
                (take-++ label rest)
              ∙ ap (λ o. o >>= λ r. some ((c ∷ label) ∷ r.0, r.1))
                  (read_labels-encode_labels fuel labels behind all.1 (omega (arith, enough))))))

length-join :
    (labels : List (List ℕ)) (label : List ℕ)
    → length (encode_labels (label ∷ labels)) ≡ 2 + length (join label labels)
length-join [] label = omega (arith, length-append label (0 ∷ []))
length-join (next ∷ labels) label = omega (
  arith,
  length-append label (length next ∷ (next ++ encode_labels labels)),
  length-append label (b'.' ∷ join next labels),
  length-join labels next,
)

-- The query for a name of labels, which are not empty, short and without dots, and of which the message
-- has fewer than 2^16 bytes, has the size that the code allocates; behind its twelve bytes of header a
-- reader with fuel for more rounds than there are labels finds the labels of the name, and behind these
-- the type and the class of the question.
pub query-read_labels :
    (label : List ℕ) (labels : List (List ℕ)) (fuel : ℕ)
    → IsLabel label
    → All IsLabel labels
    → 18 + length (join label labels) < 2 ^ 16
    → suc (length labels) < fuel
    → (length (query (join label labels)) ≡ dns_size (join label labels))
      × (read_labels fuel (drop 12 (query (join label labels)))
          ≡ some (label ∷ labels, 0 ∷ 1 ∷ 0 ∷ 1 ∷ []))
unfolding query dns_size
query-read_labels label labels fuel is all fits enough =
    (let written = write_name-encode_labels label labels is all in
      let tail : List ℕ = 0 ∷ 1 ∷ 0 ∷ 1 ∷ [] in
      (
        omega (
          arith,
          length-append (write_name (join label labels)) tail,
          ap length written,
          length-join labels label,
          fits,
        ),
        ap (λ l. read_labels fuel (l ++ tail)) written
            ∙ read_labels-encode_labels fuel (label ∷ labels) tail (is, all) enough,
      ))
