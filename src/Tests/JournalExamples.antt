-- ===== src/Tests/JournalExamples.antt =====
-- The theorems on the posting engine and on the journal, at the small company.
use mathlib.Core.Path.{subst}
use fin_matrix_backend.Prelude.{◌≡◌, refl, true, ok, err, [], map, All, arith, eq_of_some}
use fin_matrix_backend.Prelude.Int.{◌+ℤ◌}
use fin_matrix_backend.Money.Rounding.{eight_places, half_up}
use fin_matrix_backend.Store.{posted, JournalEntry, check_violation}
use fin_matrix_backend.Posting.Checks.{next_journal_reference, find_accounts}
use fin_matrix_backend.Posting.Apply.Deltas.{IsFound, IsMoneyLine}
use fin_matrix_backend.Posting.Create.{stored_lines, posted_entry, account_ids}
use fin_matrix_backend.Posting.Create.Effect.{type_of, source_of, posted_db}
use fin_matrix_backend.Posting.Create.Posted.{
  create_entry_posts, post_draft_posts, IsPostable, posted_draft_db,
}
use fin_matrix_backend.Posting.Equation.{trial_balance}
use fin_matrix_backend.JournalEntries.{void_entry, assert_not_reconciled}
use fin_matrix_backend.JournalEntries.Commit.{IsBalanced}
use fin_matrix_backend.JournalEntries.Trial.{create_entry-IsBalanced}
use fin_matrix_backend.JournalEntries.Reversal.{unpost_lines, void_entry_reverses}
use fin_matrix_backend.JournalEntries.Unbalanced.{void_entry_of_unbalanced}
use fin_matrix_backend.JournalEntries.Effects.{openings}
use fin_matrix_backend.JournalEntries.Steps.{posting, voiding}
use fin_matrix_backend.JournalEntries.Steps.Reach.{
  Reach, here, next, Reach-trial_balance, Reach-openings,
}
use fin_matrix_backend.Tests.{books, env, later, sale, odd_draft, even_draft}
use fin_matrix_backend.Tests.Journal.{
  sale_entry, after_sale, after_void, posted_even, after_post, sale_posts, sale_commits, sale_voids,
  even_posts, books-IsValid, after_sale-IsValid,
}

sold_and_voided : Reach eight_places books after_void
sold_and_voided =
    next (next here (posting env (sale true) sale_entry after_sale refl sale_posts sale_commits))
      (voiding later 1 7 2 "mistake" "Void JE-3: mistake" refl sale_voids)

Reach-trial_balance_example : trial_balance 1 after_void.accounts ≡ trial_balance 1 books.accounts
Reach-trial_balance_example = Reach-trial_balance books-IsValid sold_and_voided 1

Reach-openings_example : openings after_void ≡ openings books
Reach-openings_example = Reach-openings books-IsValid sold_and_voided

create_entry_posts_example :
    (sale_entry.lines ≡ stored_lines eight_places (sale true).lines 0)
    × (sale_entry.status ≡ posted)
    × (sale_entry.id ≡ env.new_id)
    × (sale_entry.reference ≡ next_journal_reference books 1)
    × (after_sale
        ≡ posted_db eight_places sale_entry
            (type_of (sale true))
            (source_of (sale true) sale_entry)
            books)
create_entry_posts_example =
    create_entry_posts eight_places env (sale true) books books-IsValid.sound refl sale_posts

create_entry-IsBalanced_example : IsBalanced sale_entry.lines
create_entry-IsBalanced_example =
    create_entry-IsBalanced eight_places env (sale true) books sale_entry after_sale after_sale
      books-IsValid.sound refl sale_posts sale_commits refl

void_entry_reverses_example :
    after_void.accounts ≡ map (unpost_lines eight_places sale_entry.lines) after_sale.accounts
unfolding half_up
void_entry_reverses_example =
    void_entry_reverses eight_places later 1 7 2 "mistake" "Void JE-3: mistake" after_sale
      sale_entry after_sale-IsValid.sound refl refl
      ((refl, refl), ((refl, refl), ((refl, refl), tt))) sale_voids

odd_draft_differs : ¬ (IsBalanced odd_draft.lines)
unfolding ◌+ℤ◌
odd_draft_differs h = ground arith

nothing_reconciled : assert_not_reconciled books 1 4 ≡ ok tt
unfolding assert_not_reconciled
nothing_reconciled = refl

void_entry_of_unbalanced_example :
    void_entry eight_places env 1 4 2 "typo" "Void JE-1: typo" books ≡ err check_violation
void_entry_of_unbalanced_example =
    void_entry_of_unbalanced eight_places env 1 4 2 "typo" "Void JE-1: typo" books odd_draft refl
      refl refl nothing_reconciled odd_draft_differs

even_draft_money : All (IsMoneyLine eight_places) even_draft.lines
unfolding half_up
even_draft_money = ((refl, refl), ((refl, refl), tt))

postable_money :
    (entry : JournalEntry)
    → IsPostable eight_places env 1 5 2 books entry
    → All (IsMoneyLine eight_places) entry.lines
postable_money entry postable =
    subst (λ (e : JournalEntry). All (IsMoneyLine eight_places) e.lines) (eq_of_some postable.found)
      even_draft_money

post_draft_posts_example :
    (entry : JournalEntry) × IsPostable eight_places env 1 5 2 books entry
    × (posted_even ≡ posted_entry eight_places env 2 entry)
    × (after_post ≡ posted_draft_db eight_places posted_even books)
    × All (IsFound (find_accounts books 1 (account_ids entry.lines []))) entry.lines
post_draft_posts_example =
    post_draft_posts eight_places env 1 5 2 books books-IsValid.sound postable_money even_posts
