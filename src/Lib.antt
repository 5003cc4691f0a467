-- ===== src/Lib.antt =====
-- DisCoTec, a framework for the distributed sparse grid combination technique: the parts of the
-- library that decide what is computed where, as functions with theorems.
--
-- Parts and their files (source paths from the root of the repository):
--   Level     src/utils/IndexVector.hpp, LevelVector.hpp, PowerOfTwo.hpp, LevelSetUtils.{hpp,cpp}:
--             level vectors, downward closed sets, and degrees of freedom. getNumDofNodal and
--             getNumDofHierarchical are overloaded, their variants have suffixes here (_grid,
--             _grids, _subspace, _subspaces). Level/Truncated has createTruncatedHierarchicalLevels
--             and getAllKOutOfDDimensions.
--   Scheme    src/combischeme/CombiMinMaxScheme.{hpp,cpp}: the component grids of a combination
--             and their coefficients. select_adaptive_spaces is createAdaptiveCombischeme up to its
--             call of computeCombiCoeffsAdaptive, select_classical_spaces likewise for the
--             classical scheme. Scheme/Distribution has getAssignedLevels, getRoundRobinLevels and
--             getLoadBalancedLevels, with Loads and Greedy on natural numbers for the proofs of the last;
--             Scheme/ThirdLevel has CombiThirdLevelScheme.cpp.
--   Manager   src/manager/ProcessGroupManager.{hpp,cpp} and ProcessGroupSignals.hpp: one process
--             group as its manager sees it. Manager/Worker has the other end,
--             ProcessGroupWorker::wait, Manager/Files the commands with file names, and
--             Manager/Commands the calls of the process manager.
--   Tensor    src/fullgrid/Tensor.hpp: TensorIndexer.
--   Cartesian src/mpi/MPICartesianUtils.hpp: ranks and coordinates of the processes. What MPI tells
--             of a communicator is an argument, and Topology states that its ranks and coordinates
--             are inverse to each other.
--   Grid      src/fullgrid/DistributedFullGrid.hpp: the partitions of a full grid and their indices.
--             make is the constructor, set_up its part from setDecomposition on. Overloads have
--             names of their own: global_vector_index_of_local and local_vector_index_of_linear for
--             getGlobalVectorIndex and getLocalVectorIndex on local indices. getPartitionCoords is
--             modelled in one dimension. Grid/Hierarchy has the levels and predecessors of points
--             and the points of hierarchical subspaces; is_of_level is what
--             getLocalStartForThisLevel asserts.
--   Process   src/manager/ProcessManager.{hpp,cpp} over the groups of Manager. What the tests and
--             waits of the requests find is a list of polls; a loop that would still poll at its
--             end has the result polling. The order that sortTasks gives and the moves
--             of the rescheduler are arguments.
--             call_when_all_wait is the body that combine, initDsgus and combineSystemWide share.
--             Process/Recovery has what follows a fault; whether the MPI system recovered the groups is
--             an argument, MPI_Abort is the result aborted, and setMasterRank is left out.
--   ThirdLevel third_level_manager/thirdLevelManager.cpp with System and Stats, and
--             NetworkUtils::forward of src/third_level/NetworkUtils.cpp: the manager between two
--             systems. with_systems gives a handler its references to the two systems.
--   LoadModel src/loadmodel/AverageOfLastNLoadModel.{hpp,cpp}.
--   Rescheduler src/rescheduler/RebalancingTaskRescheduler.{hpp,cpp}. The body of its while loop
--             is the function round, with what it leads to as a data type.
--   Prelude   helpers that the others share; Tests has the theorems at concrete inputs.
--
-- How they interact: the scheme creates its levels by Level/Truncated and compares them by the
-- operators of Level. The manager of a group sends signals, tasks and other messages; here they are
-- a trace in the state of the group, and the worker is a function that consumes such a trace. A reply
-- of the worker is an argument of the call that waits for it, so every interleaving of sends and
-- replies is a sequence of commands.
--
-- Numbers: levels, indices and sizes are natural numbers. The source keeps them in integers of
-- fixed width and asserts that they are not negative; that no value leaves the width is assumed, not
-- shown, but for the degrees of freedom in Scheme/Distribution: a sum or product that overflows there,
-- or a read past the table of powers, has no result. The starts of the parts that
-- getDefaultDecomposition computes with doubles are rounded as doubles are, by Prelude/Doubles, whose
-- loops have 53 and 105 steps: products of two 32-bit numbers lose 9 bits at most, and a quotient of
-- such a product needs at most 84 doublings. Level vectors that the adaptive scheme passes as lmin may
-- be negative, these are integers. Combination coefficients are floating-point in the source, but sums of 1 and -1, hence integers
-- here. Loops are structural recursion on a list or on the number of rounds, but for two: the loop of
-- getRoundRobinLevels and the one of computeCombiCoeffsClassical, whose counter has eight bits, run on
-- fuel. One round more than there are tasks is enough for the first, 256 rounds for the second as long
-- as it ends at all. The loops of the process manager that poll its groups have one round more than
-- there are polls: a round that finds no group takes one. std::sort, the binomial coefficients of
-- Boost, the rounding of a fraction and comparisons with a double are arguments.
-- A failed assertion of the manager, of getAssignedLevels or of getLoadBalancedLevels is an outcome of
-- its own; other assertions on levels and sizes are hypotheses of the theorems that need them.
--
-- The full grid asks the process grid for coordinates and ranks; the buffer of getVectorIndex, which
-- getUpperBounds reads while its own calls write there, is passed through that loop. The manager
-- between two systems has what each of them will say as a list; every message counts as arrived, so
-- that a system with nothing left to say is one that closed its connection. Its loops run on fuel: a
-- combination needs one round for each message of the initiator, forwarding one for each byte, and a
-- run two turns more than it has combinations.
--
-- Not modelled: grid values and numerics (hierarchization, interpolation, combination of data), the
-- MPI library and its fault simulator, sockets, files and plots, the optimisation problem of the fault
-- tolerance, and the applications under examples. Of the worker, the cases of the third level, the
-- norms and the interpolation are left out; of the process manager, the exchange with the third level,
-- the norms, the interpolation and reInitializeGroup.
pub mod Prelude
pub mod Level
pub mod Scheme
pub mod Manager
pub mod Tensor
pub mod Cartesian
pub mod Grid
pub mod LoadModel
pub mod Process
pub mod Rescheduler
pub mod ThirdLevel
pub mod Tests
