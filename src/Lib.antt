-- ===== src/Lib.antt =====
-- SYCL-BLAS: the basic linear algebra subprograms of level 1 as expression trees that a SYCL device
-- evaluates, the product of a matrix with a vector, the reference kernel of the matrix product, and
-- the triangular solve that calls it.
--
-- The parts of the program, from below:
-- - include/blas_meta.h rounds sizes and chains event vectors: Meta.antt (`roundUp`,
--   `append_vector`, `concatenate_vectors`).
-- - include/container/sycl_iterator.h is a buffer with an offset into it: Container.antt
--   (`BufferIterator`, whose operators are `advance`, `retreat`, `pre_increment`, `post_increment`).
-- - src/views/view_sycl.hpp addresses device memory: Views.antt. The memory (`Store`) is a function
--   from the name of a buffer and a signed distance from its start; a view gives the distance that its
--   `eval` dereferences (`vector_address`, `matrix_address`, `linear_address`, `pointer_address`).
--   src/views/view.hpp is the view of a host container, which throws: Views/Host.antt.
-- - src/executors/kernel_constructor.hpp runs a tree as a kernel: Kernel.antt. An item of a kernel
--   reads memory and then writes it (`Plan`). `launch` runs the items one after the other;
--   Kernel/Interleaving.antt is the step relation in which they move in any order, one read or one
--   write at a time.
-- - src/operations/blas_operators.hpp and include/operations/blas_constants.h: Operators.antt, with
--   the operators as constructors, and the tuples of an index and a value.
-- - src/operations/blas1_trees.hpp: Trees.antt has the nodes without a side effect as a data type
--   (`Expr`), with `eval` and `get_size`, and `Assign` and `DoubleAssign` as kernels; Reduction.antt
--   has `AssignReduction`.
-- - src/executors/executor_sycl.hpp: Executor.antt chooses the grid of a tree; Reduction.antt has the
--   passes of a reduction.
-- - src/interface/blas1_interface.hpp: Blas1.antt (`_axpy`, `_copy`, `_scal`, `_swap`, `_rot`) and
--   Blas1/Reduce.antt (`_dot`, `_asum`, `_nrm2`, `_iamax`, `_iamin`) build trees and execute them;
--   Blas1/Reduce/Host.antt are the overloads that return a result to the host.
-- - src/operations/blas2/gemv.hpp: Gemv.antt has the two kernels that multiply a matrix with a vector.
--   `gemv_eval` reads memory directly. `gemv_local_eval` copies a part of the vector, and of a transposed
--   matrix also a tile, to the local memory of its group, which is a function of the place.
--   `SumMatrixColumns`, which adds up what the groups found, is a node of Trees.antt.
--   `GemvCol`, the kernel with local memory for triangles by columns, is GemvCol.antt.
--   src/operations/blas2/ger.hpp: Ger.antt is `GerCol` with local memory, the kernel of the rank
--   updates, whose groups share out the rows and the columns of the matrix.
--   src/interface/blas2_interface.hpp: Blas2/Rank.antt is `_ger`, `_syr` and `_syr2` with their
--   `_impl`s, Blas2/Trmv.antt is `_trmv_impl` for a matrix that is not transposed, and Blas2.antt is
--   `_gemv_impl` and `_gemv`, with the sizes that src/interface/blas2/backend gives each device
--   (Blas2/Backends.antt).
-- - src/operations/blas3/gemm_ref.hpp: Gemm.antt is the reference kernel of the matrix product, whose
--   work groups share out the matrices of a batch. src/interface/gemm_interface.hpp checks the
--   transposes, handles an alpha of zero and chooses a kernel: Gemm/Interface.antt, where the kernel
--   is a parameter. Gemm/Call.antt has a call of `_gemm` as its callers make it and the law that they
--   rely on (`IsGemm`); src/interface/gemm_launcher.hpp, which makes the kernel, is
--   Gemm/Reference.antt.
-- - src/interface/trsm_interface.hpp: Trsm.antt is `_trsm`, with `_gemm` behind its law. It has the
--   diagonal blocks of A inverted by the kernel of src/operations/blas3/trsm.hpp (Trsm/Inverter.antt),
--   and then solves for the blocks of X one after the other (`forward_loop`, `backward_loop`), each
--   time with calls of `_gemm` (Trsm/Calls.antt). Its checks are in Trsm/Checks.antt, and
--   Trsm/Accepted.antt puts the parts together.
-- Base holds what the modules share: tests on numbers, integers, the interface of an element type
-- (`Scalar`) with the laws of exact arithmetic (`IsExact`), sums in a commutative monoid, errors.
-- Tests holds concrete memories on which the theorems apply.
--
-- The element type is a parameter with its operations, so that floating types are
-- among them; where sums are concerned its arithmetic is exact, since a reduction on the device adds
-- in another order than a loop does. Indices are natural numbers without an upper bound, and
-- increments and displacements are integers; the wrap-around of `index_t` is not modelled, except where
-- `_gemv_impl` computes the size of its grid in `uint32_t`, and where `get_range_accessor` converts a
-- negative count to `size_t`. SYCL itself
-- is not modelled beyond this: an accessor's pointer is the start of its buffer, items of a kernel may
-- interleave, a barrier separates the rounds of a work group. A reduction inside a work group is given
-- as the rounds between its barriers, in which an item writes its own cell only, or its own row of a block.
-- The loops with which the items of GerCol and GemvCol fill local memory are run one item after the
-- other up to the barrier.
--
-- Fuel: the loop across the grid has as many rounds as there are operands, which is enough since
-- the index grows; the loop inside a group has as many as the group has items, which is more than the
-- logarithm that it needs; the passes of a reduction return `none` where fuel runs out, and
-- the grids of the interface, with as many groups as a group has items, take two at most; the loop of
-- an item of Gemm over the batch has as many rounds as the batch has matrices, which is enough since
-- it moves on by one at least; the loops of `_trsm` have as many rounds as there are equations, and
-- move on by a block; the loops of Gemv over a row have as many rounds as there are columns, or
-- columns of a tile, and move on by one at least; the loops of Ger and GemvCol
-- have as many rounds as there are rows or columns up to the end of the group's.
--
-- Not modelled: of level 2, `_symv` and the branch of `_trmv` for a transposed matrix in
-- src/interface/blas2_interface.hpp, with the kernel GemvRow of src/operations/blas2/gemv.hpp that they
-- launch, and the kernels that nothing calls (GerRow, and GerCol and GemvCol without local memory); the
-- other kernels of the matrix product in src/operations/blas3, with their local memory and their
-- vectors, the partial reductions of src/operations/extension, quantization,
-- the policy handler but its `fill`, since it calls the SYCL runtime, the back ends' tables for the matrix
-- product, the events that the operations return, and the generated instantiations.
pub mod Base
pub mod Meta
pub mod Container
pub mod Views
pub mod Kernel
pub mod Operators
pub mod Trees
pub mod Executor
pub mod Reduction
pub mod Blas1
pub mod Gemm
pub mod Gemv
pub mod GemvCol
pub mod Ger
pub mod Blas2
pub mod Trsm
pub mod Tests
