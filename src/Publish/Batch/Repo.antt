-- ===== src/Publish/Batch/Repo.antt =====
-- What ParseRepo of internal/publish/publish.go accepts.
use libre_mail_bug_report_in.Prelude.{
  ℕ, ◌≡◌, ◌≢◌, ◌↔◌, refl, ap, Option, none, some, [], ◌∷◌, ◌++◌, ◌||◌, ◌==◌, false, arith, All,
  Bool-cases, inl, inr,
}
use libre_mail_bug_report_in.Prelude.Text.{Text}
use libre_mail_bug_report_in.Prelude.Text.Cut.{cut, cons_before, cut_sound}
use libre_mail_bug_report_in.Prelude.Text.Spaces.{trim_space, is_empty}
use libre_mail_bug_report_in.Publish.Batch.{has_slash, checked_repo, parse_repo}

abbrev NotSlash : ℕ → Type 0
NotSlash c = c ≢ b'/'

-- A text that is, without the blanks at its ends, an owner and a name with one slash between them and
-- no other, neither of them empty.
pub record NamesRepo (s owner name : Text) : Type 0 where
  pub is_joined : trim_space s ≡ owner ++ b'/' ∷ name
  pub has_owner : owner ≢ []
  pub has_name : name ≢ []
  pub owner_plain : All NotSlash owner
  pub name_plain : All NotSlash name

has_slash-All : (s : Text) → has_slash s ≡ false → All NotSlash s
unfolding has_slash
has_slash-All [] h = tt
has_slash-All (c ∷ s) h =
    let rest : has_slash s ≡ false = ground arith in (ground arith, has_slash-All s rest)

All-has_slash : (s : Text) → All NotSlash s → has_slash s ≡ false
unfolding has_slash
All-has_slash [] h = refl
All-has_slash (c ∷ s) (here, rest) = let k = All-has_slash s rest in ground arith

plain_same : (a b : Text) → a ≡ b → All NotSlash a → All NotSlash b
plain_same a b e h = rw e at h

abbrev first_part : Option (Text × Text) → Text
first_part none = []
first_part (some (x, y)) = x

abbrev second_part : Option (Text × Text) → Text
second_part none = []
second_part (some (x, y)) = y

cons_before-All :
    (c : ℕ) (o : Option (Text × Text)) (before after : Text)
    → c ≢ b'/'
    → ((b a : Text) → o ≡ some (b, a) → All NotSlash b)
    → cons_before c o ≡ some (before, after)
    → All NotSlash before
unfolding cons_before
cons_before-All c none before after h k e = cc
cons_before-All c (some (b, a)) before after h k e =
    plain_same (c ∷ b) before (ap first_part e) (h, k b a refl)

cut-All : (s before after : Text) → cut b'/' s ≡ some (before, after) → All NotSlash before
unfolding cut
cut-All [] before after h = cc
cut-All (c ∷ s) before after h = elim (Bool-cases (c == b'/')) [
  | inl e ↦ let h' = rw e at h in plain_same [] before (ap first_part h') tt
  | inr e ↦
      cons_before-All c (cut b'/' s) before after (ground arith) (λ b a. cut-All s b a) (rw e at h)
]

cut-append : (s t : Text) → All NotSlash s → cut b'/' (s ++ b'/' ∷ t) ≡ some (s, t)
unfolding cut cons_before
cut-append [] t h = refl
cut-append (c ∷ s) t (here, rest) =
    let e : (c == b'/') ≡ false = ground arith in rw (e, cut-append s t rest) refl

not_empty : (s : Text) → s ≢ [] → is_empty s ≡ false
unfolding is_empty
not_empty [] h = absurd (h refl)
not_empty (c ∷ s) h = refl

is_empty-not : (s : Text) → is_empty s ≡ false → s ≢ []
unfolding is_empty
is_empty-not [] h = cc
is_empty-not (c ∷ s) h = λ e. cc

checked_repo-NamesRepo :
    (s owner name : Text) (o : Option (Text × Text))
    → cut b'/' (trim_space s) ≡ o
    → checked_repo o ≡ some (owner, name)
    → NamesRepo s owner name
unfolding checked_repo
checked_repo-NamesRepo s owner name none e h = cc
checked_repo-NamesRepo s owner name (some (b, a)) e h =
    elim (Bool-cases (is_empty b || (is_empty a || has_slash a))) [
      | inl bad ↦ let h' = rw bad at h in cc
      | inr good ↦
          let same = rw good at h in
          let eb : b ≡ owner = ap first_part same in
          let ea : a ≡ name = ap second_part same in
          let named : NamesRepo s b a = record {
            is_joined = cut_sound b'/' (trim_space s) b a e;
            has_owner = is_empty-not b (ground arith);
            has_name = is_empty-not a (ground arith);
            owner_plain = cut-All (trim_space s) b a e;
            name_plain = has_slash-All a (ground arith);
          } in
          rw (eb, ea) at named
    ]

-- ParseRepo accepts exactly the texts that name a repository, with the owner and the name it returns.
pub parse_repo_iff :
    (s owner name : Text) → (parse_repo s ≡ some (owner, name)) ↔ NamesRepo s owner name
unfolding parse_repo checked_repo
parse_repo_iff s owner name = (
  λ h. checked_repo-NamesRepo s owner name (cut b'/' (trim_space s)) refl h,
  λ n.
      rw
        (
          n.is_joined,
          cut-append owner name n.owner_plain,
          not_empty owner n.has_owner,
          not_empty name n.has_name,
          All-has_slash name n.name_plain,
        )
        refl,
)
