-- ===== src/Inventory/Entry.antt =====
-- An entry of the directory becomes a record: core/internal/inventory/scanner.go, `parseEntry` and
-- what it calls. An entry is its name and what `GetAttributeValues` gives for each attribute.
use Prim.Native.Char.{Char, code}
use Prim.Native.Nat.{◌/◌, ◌%◌}
use oiaf.Base.{
  ℕ, ℤ, pos, negsuc, Bool, true, false, not, ◌&&◌, String, ◌==◌, Option, none, some, List, [], ◌∷◌,
  codes, bytes_eq, eqb, is_empty, exists_in, map, if◌then◌else◌,
}
use oiaf.Policy.Values.{split, lower}
use oiaf.Types.Directory.{AdInventoryRecord}
use oiaf.Strconv.{atoi, is_digit, trim_left, trim_space, trim_text}
use oiaf.Inventory.FileTime.{parse_file_time, instant}

pub record Attributes : Type 0 where
  pub dn : String
  pub values : String → List String

-- `GetAttributeValue`: the first value, or the empty text.
abbrev first : List String → String
first [] = ""
first (v ∷ r) = v

abbrev pub attribute : Attributes → String → String
attribute entry name = first (entry.values name)

abbrev pub privileged_group_names : List String
privileged_group_names =
    "domain admins" ∷ "enterprise admins" ∷ "schema admins" ∷ "group policy creator owners"
    ∷ "administrators" ∷ "account operators" ∷ "server operators" ∷ "print operators"
    ∷ "backup operators" ∷ []

abbrev pub privileged_group_suffixes : List String
privileged_group_suffixes =
    "-512" ∷ "-518" ∷ "-519" ∷ "-520" ∷ "-544" ∷ "-548" ∷ "-549" ∷ "-550" ∷ "-551" ∷ []

-- The part after `cn=` in any case, if something is after it.
unfoldable pub after_cn : List ℕ → Option (List ℕ)
after_cn (c ∷ (n ∷ (e ∷ (a ∷ r)))) =
    if eqb (lower c) b'c' && eqb (lower n) b'n' && eqb e b'=' then some (a ∷ r) else none
after_cn _ = none

unfoldable pub first_cn : List (List ℕ) → List ℕ
first_cn [] = []
first_cn (part ∷ r) =
    let rest = first_cn r in
    elim (after_cn (trim_space part)) [ some cn ↦ map lower (trim_space cn) | none ↦ rest ]

-- The lower-case code points of the CN.
unfoldable pub cn_of : String → List ℕ
cn_of dn = first_cn (split b',' (codes dn))

unfoldable pub all_digits : List ℕ → Bool
all_digits [] = true
all_digits (a ∷ r) = let rest = all_digits r in if is_digit a then rest else false

abbrev last_of : List ℕ → List (List ℕ) → List ℕ
last_of part [] = part
last_of part (p ∷ r) = last_of p r

-- The part after the last `-` where a part stands before it: the text does not start with the only
-- one, and does not end with one.
abbrev rid_of : List ℕ → List (List ℕ) → List ℕ
rid_of head [] = []
rid_of [] (p ∷ []) = []
rid_of head (p ∷ r) =
    let rid = last_of p r in if not (is_empty rid) && all_digits rid then b'-' ∷ rid else []

unfoldable pub rid_suffix_of : List ℕ → List ℕ
unfolding split
rid_suffix_of sid = elim (split b'-' sid) [ [] ↦ [] | head ∷ r ↦ rid_of head r ]

-- The identifier, or a bare number in its shape.
unfoldable pub rid_for : List ℕ → List ℕ
rid_for sid =
    let rid = rid_suffix_of sid in
    if is_empty rid && is_empty (trim_left is_digit sid) && not (is_empty sid)
    then b'-' ∷ trim_left (λ a. eqb a b'0') sid
    else rid

abbrev one_of : List String → List ℕ → Bool
one_of names text = exists_in (λ want. bytes_eq text (codes want)) names

-- `if x == "" { continue }; for _, want := range names { … }`
abbrev names_one : List String → List ℕ → Bool
names_one names text = not (is_empty text) && one_of names text

unfoldable pub is_privileged_entry : Attributes → List String → Bool
unfolding cn_of rid_for
is_privileged_entry entry member_of =
    if exists_in (λ group. names_one privileged_group_names (cn_of group)) member_of
    then true
    else exists_in (λ sid. names_one privileged_group_suffixes (rid_for (codes sid)))
        (attribute entry "objectSid" ∷ attribute entry "primaryGroupID" ∷ [])

-- The bit 2 of a signed integer in two's complement.
unfoldable pub has_disable_bit : ℤ → Bool
has_disable_bit (pos n) = eqb (n / 2 % 2) 1
has_disable_bit (negsuc n) = eqb (n / 2 % 2) 0

-- The text after `OU=` in any case. No other letters have these capitals.
unfoldable pub after_ou : String → Option String
after_ou (String.◌∷◌ o (String.◌∷◌ u (String.◌∷◌ e r))) =
    if eqb (lower (code o)) b'o' && eqb (lower (code u)) b'u' && eqb (code e) b'='
    then some r
    else none
after_ou _ = none

abbrev prepend : Char → List String → List String
prepend c [] = String.◌∷◌ c String.[] ∷ []
prepend c (part ∷ r) = String.◌∷◌ c part ∷ r

-- `strings.Split(s, ",")`
unfoldable pub split_text : String → List String
split_text String.[] = String.[] ∷ []
split_text (String.◌∷◌ c s) =
    let rest = split_text s in if eqb (code c) b',' then String.[] ∷ rest else prepend c rest

unfoldable pub first_ou : List String → String
first_ou [] = ""
first_ou (part ∷ r) =
    let rest = first_ou r in elim (after_ou (trim_text part)) [ some ou ↦ ou | none ↦ rest ]

unfoldable pub extract_ou : String → String
unfolding split_text
extract_ou dn = first_ou (split_text dn)

unfoldable pub parse_entry : Attributes → AdInventoryRecord
unfolding is_privileged_entry extract_ou
parse_entry entry =
    let uac = atoi (codes (attribute entry "userAccountControl")) in
    let member_of = entry.values "memberOf" in
    record {
      sid = attribute entry "objectSid";
      sam_account_name = attribute entry "sAMAccountName";
      display_name = attribute entry "displayName";
      object_class =
          if exists_in (λ oc. oc == "computer") (entry.values "objectClass")
          then "computer"
          else "user";
      user_account_control = uac;
      spns = entry.values "servicePrincipalName";
      member_of = member_of;
      last_logon_timestamp = instant (parse_file_time (attribute entry "lastLogonTimestamp"));
      pwd_last_set = instant (parse_file_time (attribute entry "pwdLastSet"));
      enabled = not (has_disable_bit uac);
      ou = extract_ou (if entry.dn == "" then attribute entry "distinguishedName" else entry.dn);
      is_gmsa = not (attribute entry "msDS-GroupMSAMembership" == "");
      is_privileged = is_privileged_entry entry member_of;
    }
