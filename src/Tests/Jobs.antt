-- ===== src/Tests/Jobs.antt =====
-- Witnesses for the job table of src/jobs.c.
use tabla_rusa_os.Base.{not, ◌≡◌, ◌≢◌, none, arith, codes, inr, add32, find_index}
use tabla_rusa_os.Jobs.Table.{Job, boot_jobs, jobs_account, ticks_of}
use tabla_rusa_os.Jobs.Accounting.{account-ticks_of}

free_slot : find_index (λ (j : Job). not j.active) boot_jobs ≢ none
unfolding find_index
free_slot e = cc

account-ticks_of_example :
    ticks_of (codes "proof-worker") (jobs_account (codes "proof-worker") 2 boot_jobs)
    ≡ add32 (ticks_of (codes "proof-worker") boot_jobs) 2
account-ticks_of_example =
    account-ticks_of (codes "proof-worker") 2 boot_jobs (omega arith) (inr free_slot)
