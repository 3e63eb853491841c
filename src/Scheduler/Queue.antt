-- ===== src/Scheduler/Queue.antt =====
-- kernel/src/scheduler/queue.c: singly linked queues of tasks. A task is a number, NULL is 0, and
-- the field `next` of all tasks is one function. `*head` is passed in and returned. A walk along
-- the links runs on fuel, and `none` means that the fuel ran out.
pub mod Chain
pub mod Push
pub mod Remove
mod Tests
use zenith_os.Prelude.{
  ℕ, zero, suc, ◌==◌, if◌then◌else◌, Bool, true, false, Option, none, some, ◌||◌,
}

abbrev pub Ptr : Type 0
Ptr = ℕ

abbrev pub null : Ptr
null = 0

abbrev pub Links : Type 0
Links = Ptr → Ptr

-- `p->next = q`
unfoldable pub link : Links → Ptr → Ptr → Links
link l p q a = if a == p then q else l a

-- The walk of `task_queue_push` to the last task, and the write behind it.
unfoldable pub link_last : ℕ → Links → Ptr → Ptr → Option Links
link_last zero l current task = none
link_last (suc fuel) l current task =
    let rest = link_last fuel l (l current) task in
    if l current == null then some (link l current task) else rest

unfoldable pub queue_push : ℕ → Links → Ptr → Ptr → Option (Links × Ptr)
unfolding link link_last
queue_push fuel l head task =
    if task == null
    then some (l, head)
    else let l1 = link l task null in
      if head == null
      then some (l1, task)
      else elim (link_last fuel l1 head task) [ none ↦ none | some l2 ↦ some (l2, head) ]

-- The walk of `task_queue_remove`, from a task that is not the one to remove.
unfoldable pub unlink : ℕ → Links → Ptr → Ptr → Option Links
unlink zero l current task = none
unlink (suc fuel) l current task =
    let rest = unlink fuel l (l current) task in
    if l current == null
    then some l
    else if l current == task
    then some (link (link l current (l task)) task null)
    else rest

unfoldable pub queue_remove : ℕ → Links → Ptr → Ptr → Option (Links × Ptr)
unfolding link unlink
queue_remove fuel l head task =
    if head == null || task == null
    then some (l, head)
    else if head == task
    then some (link l task null, l task)
    else elim (unlink fuel l head task) [ none ↦ none | some l2 ↦ some (l2, head) ]
