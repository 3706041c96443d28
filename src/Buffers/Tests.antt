-- ===== src/Buffers/Tests.antt =====
-- The buffers on concrete storage.
use fast_port.Prelude.{◌≡◌, refl, true, false, some, List, [], ◌∷◌, arith}
use fast_port.Buffers.Span.{copy_in, copy_out, spans_from, scatter, first_part}
use fast_port.Buffers.Fifo
use fast_port.Buffers.Fifo.{Op, Reply, done, bytes, count, seen}
use fast_port.Buffers.Circle
use fast_port.Buffers.Circle.{CircleBufferQueue}
use fast_port.Buffers.Circle.Bounds.{IsValid}
use fast_port.Buffers.Circle.Refine.{contents}
use fast_port.Buffers.Circle.Run.{run_refines}
use fast_port.Buffers.Circle.ZeroCopy.{fill_reserved-eq-write}
use fast_port.Buffers.External
use fast_port.Buffers.External.{ExternalCircleBufferQueue}
use fast_port.Buffers.External.Laws.{run-owned}

-- 8, then 9, round the end of the storage.
abbrev wrapped : CircleBufferQueue
wrapped = record { buffer = 9 ∷ 7 ∷ 8 ∷ []; head = 1; tail = 2; size = 2; capacity = 3 }

abbrev borrowed : ExternalCircleBufferQueue
borrowed = record { buffer = 9 ∷ 7 ∷ 8 ∷ []; head = 1; tail = 2; size = 2; capacity = 3 }

abbrev script : List Op
script =
    Op.write (5 ∷ 6 ∷ [])
    ∷ Op.fill (5 ∷ [])
    ∷ Op.pop 2
    ∷ Op.receive (1 ∷ 2 ∷ [])
    ∷ Op.peek 3
    ∷ Op.view
    ∷ Op.can_write
    ∷ []

abbrev replies : List Reply
replies =
    done false
    ∷ done true
    ∷ bytes (some (8 ∷ 9 ∷ []))
    ∷ done true
    ∷ bytes (some (5 ∷ 1 ∷ 2 ∷ []))
    ∷ seen 3 (5 ∷ 1 ∷ 2 ∷ [])
    ∷ count 0
    ∷ []

wrapped-IsValid : IsValid wrapped
wrapped-IsValid = omega arith

-- The model runs as the source does.
run-wrapped : Circle.run wrapped script ≡ replies
unfolding Circle.run Circle.step Circle.write Circle.fill_reserved Circle.allocate_write Circle.pop
    Circle.receive_into Circle.get_writeable_buffers Circle.commit_write Circle.peek
    Circle.can_write_size Circle.get_read_buffers copy_in copy_out spans_from scatter first_part
run-wrapped = refl

run_refines_example : Circle.run wrapped script ≡ Fifo.run 3 (contents wrapped) script
run_refines_example = run_refines script wrapped-IsValid

fill_reserved-eq-write_example :
    Circle.fill_reserved wrapped (4 ∷ []) ≡ Circle.write wrapped (4 ∷ [])
fill_reserved-eq-write_example = fill_reserved-eq-write wrapped-IsValid (4 ∷ [])

run-owned_example : External.run borrowed script ≡ Circle.run wrapped script
run-owned_example = run-owned script borrowed
